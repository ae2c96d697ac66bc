-- ===== src/Spectrum/Pool/Claims.antt =====
-- What the store holds after a commit.
use eecs_k8s.Prelude.{
  clash, ◌⊎◌, ◌==◌, ℕ, suc, ◌≡◌, ◌∙◌, refl, String, true, false, inl, inr, Bool-cases, some, List,
  [], ◌∷◌, All, arith, str_eq, eq_refl, eq_iff, unwrap_or,
}
use eecs_k8s.Spectrum.Schema.{
  CommitState, pending, preparing, running, PoolResource, PoolResourceLifecycle, PoolResourceProbe,
  as_raw, from_raw-as_raw,
}
use eecs_k8s.Spectrum.Reference.{ObjectReference, to_string}
use eecs_k8s.Spectrum.Table.{Database, DatabaseLaws}
use eecs_k8s.Spectrum.Pool.{
  Store, commit, put, put_state, read, read_state, endpoint, try_handle, PoolCommitRequestItem,
}
use eecs_k8s.Spectrum.Pool.Handler.{
  Orders, Key, Value, put_all, try_handle_commit, collect_orders, item_orders, insert_order,
  unclaimed, is_claimed_by, value_of,
}

abbrev pub claimed : String → CommitState → PoolResource String
claimed value state = record { claim = some value; state = state }

module _ (db : Database) (laws : DatabaseLaws db) where
  -- What is read back after the tables are written with a state.
  abbrev stored : String → String → CommitState × Store db → PoolResource String
  stored key value r = record {
    claim = db.get (db.insert key value r.1.claim) key;
    state = unwrap_or (read_state (db.get (db.insert key (as_raw r.0) r.1.ready) key)) pending;
  }

  read-stored :
      (key value : String) (r : CommitState × Store db) → stored key value r ≡ claimed value r.0
  read-stored key value (state, next) =
      rw (laws.get-insert key value next.claim)
        (rw (laws.get-insert key (as_raw state) next.ready) (rw (from_raw-as_raw state) refl))

  -- A resource that was put is read back with its claim and the state that was answered.
  pub read-put :
      (st : Store db) (key : ObjectReference) (value address : String) (l : PoolResourceLifecycle)
      → read db (put db st key value address l).1 key
        ≡ claimed value (put db st key value address l).0
  unfolding read put
  read-put st key value address l =
      read-stored (to_string key) value (put_state db st (to_string key) address l.pre_start)

  -- The same entry under a key in both tables.
  record SameAt (key : String) (st next : Store db) : Type 0 where
    same_claim : db.get next.claim key ≡ db.get st.claim key
    same_ready : db.get next.ready key ≡ db.get st.ready key

  SameAt-trans :
      (key : String) (a b c : Store db) → SameAt key a b → SameAt key b c → SameAt key a c
  SameAt-trans key a b c h k = record {
    same_claim = k.same_claim ∙ h.same_claim;
    same_ready = k.same_ready ∙ h.same_ready;
  }

  put_state-SameAt :
      (key : String) (st : Store db) (other address : String) (probes : List PoolResourceProbe)
      → SameAt key st (put_state db st other address probes).1
  unfolding put_state commit
  put_state-SameAt key st other address [] = record { same_claim = refl; same_ready = refl }
  put_state-SameAt key st other address (p ∷ ps) = elim (Bool-cases (st.semaphore == 0)) [
    | inl e ↦ rw e (record { same_claim = refl; same_ready = refl })
    | inr e ↦ rw e (record { same_claim = refl; same_ready = refl })
  ]

  put-SameAt :
      (key : String) (st : Store db) (other : ObjectReference) (value address : String)
      (l : PoolResourceLifecycle)
      → str_eq (to_string other) key ≡ false
      → SameAt key st (put db st other value address l).1
  unfolding put
  put-SameAt key st other value address l h = record {
    same_claim = laws.get-insert_ne (to_string other) key value _ h ∙ below.same_claim;
    same_ready = laws.get-insert_ne (to_string other) key _ _ h ∙ below.same_ready;
  }
    where
      below : SameAt key st (put_state db st (to_string other) address l.pre_start).1
      below = put_state-SameAt key st (to_string other) address l.pre_start

  abbrev IsOther : String → Key × Value → Type 0
  IsOther key o = str_eq (to_string o.1.resource) key ≡ false

  put_all-SameAt :
      (key : String) (os : Orders) (st : Store db)
      → All (IsOther key) os
      → SameAt key st (put_all db os st)
  unfolding put_all
  put_all-SameAt key [] st h = record { same_claim = refl; same_ready = refl }
  put_all-SameAt key ((k, v) ∷ os) st h =
      by_state (put db st v.resource v.claim_name v.address v.lifecycle).0
        (put db st v.resource v.claim_name v.address v.lifecycle).1
        (put-SameAt key st v.resource v.claim_name v.address v.lifecycle h.0)
        (put_all-SameAt key os (put db st v.resource v.claim_name v.address v.lifecycle).1 h.1)
    where
      by_state :
          (state : CommitState) (next : Store db)
          → SameAt key st next
          → SameAt key next (put_all db os next)
          → SameAt key st (elim state as (λ _. Store db) [
            | pending ↦ next
            | preparing ↦ put_all db os next
            | running ↦ put_all db os next
          ])
      by_state pending next s t = s
      by_state preparing next s t = SameAt-trans key st next (put_all db os next) s t
      by_state running next s t = SameAt-trans key st next (put_all db os next) s t

  -- Where a key is named, its claim is held by the one that names it.
  abbrev pub IsHeld : String → Store db → PoolCommitRequestItem → String → Type 0
  IsHeld key st item name =
      str_eq (to_string (endpoint item.pool.namespace name)) key ≡ true
      → db.get st.claim key ≡ some item.name

  held_claim :
      (k key name : String) (t : db.Table String)
      → str_eq k key ≡ true
      → db.get t key ≡ some name
      → is_claimed_by name (db.get t k) ≡ true
  held_claim k key name t same h = rw ((eq_iff k key).0 same) (rw h (eq_refl name))

  unclaimed-IsOther :
      (key : String) (st : Store db) (item : PoolCommitRequestItem) (names : List String)
      → All (IsHeld key st item) names
      → All
          (λ name. str_eq (to_string (endpoint item.pool.namespace name)) key ≡ false)
          (unclaimed item.name names (try_handle db st item.pool.namespace names))
  unfolding read unclaimed try_handle
  unclaimed-IsOther key st item [] h = tt
  unclaimed-IsOther key st item (name ∷ names) h =
      elim (Bool-cases
        (is_claimed_by item.name (read db st (endpoint item.pool.namespace name)).claim)) [
          | inl held ↦ rw held (unclaimed-IsOther key st item names h.1)
          | inr free ↦
              rw free (other free (Bool-cases _) h.0, unclaimed-IsOther key st item names h.1)
        ]
    where
      other :
          is_claimed_by item.name (read db st (endpoint item.pool.namespace name)).claim ≡ false
          → (str_eq (to_string (endpoint item.pool.namespace name)) key ≡ true)
            ⊎ (str_eq (to_string (endpoint item.pool.namespace name)) key ≡ false)
          → IsHeld key st item name
          → str_eq (to_string (endpoint item.pool.namespace name)) key ≡ false
      other free (inr differs) h = differs
      other free (inl same) h =
          clash
            (held_claim (to_string (endpoint item.pool.namespace name)) key item.name st.claim same
              (h same))
            free

  insert_order-All :
      (P : Value → Type 0) (k : Key) (v : Value) (os : Orders)
      → P v
      → All (λ o. P o.1) os
      → All (λ o. P o.1) (insert_order k v os)
  unfolding insert_order
  insert_order-All P k v [] p h = (p, tt)
  insert_order-All P k v ((l, w) ∷ os) p h = ground (arith, insert_order-All P k v os p h.1)

  item_orders-All :
      (P : Value → Type 0) (item : PoolCommitRequestItem) (n r : ℕ) (names : List String)
      (os : Orders)
      → All (λ name. P (value_of item name)) names
      → All (λ o. P o.1) os
      → All (λ o. P o.1) (item_orders item n r names os)
  unfolding item_orders
  item_orders-All P item n r [] os h k = k
  item_orders-All P item n r (name ∷ names) os h k =
      item_orders-All P item n (suc r) names _ h.1 (insert_order-All P _ _ os h.0 k)

  collect_orders-IsOther :
      (key : String) (st : Store db) (n : ℕ) (items : List PoolCommitRequestItem) (os : Orders)
      → All (λ item. All (IsHeld key st item) item.pool.resources) items
      → All (IsOther key) os
      → All (IsOther key) (collect_orders db st n items os)
  unfolding collect_orders
  collect_orders-IsOther key st n [] os h k = k
  collect_orders-IsOther key st n (item ∷ items) os h k =
      collect_orders-IsOther key st (suc n) items _ h.1 (
        item_orders-All (λ v. str_eq (to_string v.resource) key ≡ false) item n 0 _ os
          (unclaimed-IsOther key st item item.pool.resources h.0) k)

  -- A commit leaves a resource as it is, its state too, where each claim of the request that names
  -- it holds it already: also a resource that was left pending for want of a permit.
  pub commit-keeps :
      (key : String) (items : List PoolCommitRequestItem) (st : Store db)
      → All (λ item. All (IsHeld key st item) item.pool.resources) items
      → (db.get (try_handle_commit db items st).claim key ≡ db.get st.claim key)
        × (db.get (try_handle_commit db items st).ready key ≡ db.get st.ready key)
  unfolding try_handle_commit
  commit-keeps key items st h = (kept.same_claim, kept.same_ready)
    where
      kept : SameAt key st (put_all db (collect_orders db st 0 items []) st)
      kept = put_all-SameAt key _ st (collect_orders-IsOther key st 0 items [] h tt)
