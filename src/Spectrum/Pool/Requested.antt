-- ===== src/Spectrum/Pool/Requested.antt =====
-- How many resources a commit serves.
use eecs_k8s.Prelude.{
  refl, ◌⊎◌, ℕ, suc, ◌+◌, ◌<◌, ◌≡◌, String, false, inl, inr, Bool-cases, List, [], ◌∷◌, All,
  All-map, arith, length,
}
use eecs_k8s.Spectrum.Table.{Database}
use eecs_k8s.Spectrum.Pool.{try_handle, Store, PoolCommitRequestItem}
use eecs_k8s.Spectrum.Pool.Handler.{
  key_of, value_of, index_before, unclaimed, Orders, Key, Value, before, insert_order, item_orders,
  collect_orders,
}

-- The key is of an item before the `n`-th, or of that and of a resource before the `r`-th.
abbrev pub IsOlder : (n r : ℕ) → Key × Value → Type 0
IsOlder n r o = (o.0.item_index < n) ⊎ ((o.0.item_index ≡ n) × (o.0.resource_index < r))

same_index :
    (k l : Key)
    → before k l ≡ false
    → before l k ≡ false
    → (l.item_index ≡ k.item_index) × (l.resource_index ≡ k.resource_index)
unfolding before index_before
same_index k l h i = (ground arith, ground arith)

new_key :
    (k l : Key) (v : Value)
    → IsOlder k.item_index k.resource_index (l, v)
    → before k l ≡ false
    → before l k ≡ false
    → ⊥
new_key k l v (inl h) a b = omega (arith, h, (same_index k l a b).0)
new_key k l v (inr h) a b = omega (arith, h.1, (same_index k l a b).1)

length-insert_order :
    (k : Key) (v : Value) (os : Orders)
    → All (IsOlder k.item_index k.resource_index) os
    → length (insert_order k v os) ≡ suc (length os)
unfolding insert_order
length-insert_order k v [] h = refl
length-insert_order k v ((l, w) ∷ os) h = elim (Bool-cases (before k l)) [
  | inl first ↦ rw first refl
  | inr later ↦ elim (Bool-cases (before l k)) [
    | inl second ↦ rw (later, second) (omega (arith, length-insert_order k v os h.1))
    | inr same ↦ absurd (new_key k l w h.0 later same)
  ]
]

insert_order-IsOlder :
    (n r : ℕ) (k : Key) (v : Value) (os : Orders)
    → IsOlder n r (k, v)
    → All (IsOlder n r) os
    → All (IsOlder n r) (insert_order k v os)
unfolding insert_order
insert_order-IsOlder n r k v [] h a = (h, tt)
insert_order-IsOlder n r k v ((l, w) ∷ os) h a = elim (Bool-cases (before k l)) [
  | inl first ↦ rw first (h, a)
  | inr later ↦ elim (Bool-cases (before l k)) [
    | inl second ↦ rw (later, second) (a.0, insert_order-IsOlder n r k v os h a.1)
    | inr same ↦ rw (later, same) a
  ]
]

next_resource : (n r : ℕ) (o : Key × Value) → IsOlder n r o → IsOlder n (suc r) o
next_resource n r o (inl h) = inl h
next_resource n r o (inr h) = inr (h.0, omega (arith, h.1))

next_item : (n r : ℕ) (o : Key × Value) → IsOlder n r o → IsOlder (suc n) 0 o
next_item n r o (inl h) = inl (omega (arith, h))
next_item n r o (inr h) = inl (omega (arith, h.0))

item_orders-length :
    (item : PoolCommitRequestItem) (n r : ℕ) (names : List String) (os : Orders)
    → All (IsOlder n r) os
    → (length (item_orders item n r names os) ≡ length names + length os)
      × All (IsOlder (suc n) 0) (item_orders item n r names os)
unfolding item_orders
item_orders-length item n r [] os h =
    (omega arith, All-map (IsOlder n r) (IsOlder (suc n) 0) os (λ o. next_item n r o) h)
item_orders-length item n r (name ∷ names) os h =
    let k = key_of item n r name in
    let v = value_of item name in
    let older = All-map (IsOlder n r) (IsOlder n (suc r)) os (λ o. next_resource n r o) h in
    let rest =
      item_orders-length item n (suc r) names (insert_order k v os)
        (insert_order-IsOlder n (suc r) k v os (inr (refl, omega arith)) older) in
    (omega (arith, rest.0, length-insert_order k v os h), rest.1)

-- The resources of the requests that are not held by their claims, counted for each request.
unfoldable pub requested : (db : Database) → Store db → List PoolCommitRequestItem → ℕ
unfolding unclaimed try_handle
requested db st [] = 0
requested db st (item ∷ items) =
    length (
      unclaimed item.name item.pool.resources
        (try_handle db st item.pool.namespace item.pool.resources))
    + requested db st items

pub collect_orders-length :
    (db : Database) (st : Store db) (n : ℕ) (items : List PoolCommitRequestItem) (os : Orders)
    → All (IsOlder n 0) os
    → length (collect_orders db st n items os) ≡ requested db st items + length os
unfolding collect_orders requested
collect_orders-length db st n [] os h = omega arith
collect_orders-length db st n (item ∷ items) os h =
    let names =
      unclaimed item.name item.pool.resources
        (try_handle db st item.pool.namespace item.pool.resources) in
    let one = item_orders-length item n 0 names os h in
    omega (
      arith,
      one.0,
      collect_orders-length db st (suc n) items (item_orders item n 0 names os) one.1,
    )
