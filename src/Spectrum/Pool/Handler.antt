-- ===== src/Spectrum/Pool/Handler.antt =====
-- crates/openark-spectrum-pool/src/routes/service.rs: `try_handle_commit`.
use eecs_k8s.Prelude.{
  ℕ, suc, String, Bool, true, false, Option, none, some, List, [], ◌∷◌, str_eq, ◌==◌, ltb,
  if◌then◌else◌,
}
use eecs_k8s.Prelude.Int.{ℤ, ltb_ℤ, eq_ℤ}
use text.Mathlib.Text.{is_lt}
use Prim.Native.String.{compare}
use eecs_k8s.Spectrum.Schema.{pending, preparing, running, PoolResource, PoolResourceLifecycle}
use eecs_k8s.Spectrum.Reference.{ObjectReference}
use eecs_k8s.Spectrum.Table.{Database}
use eecs_k8s.Spectrum.Pool.{Store, PoolCommitRequestItem, endpoint, put, try_handle}

pub record Key : Type 0 where
  pub priority : ℤ
  pub resource_index : ℕ
  pub item_index : ℕ
  pub claim_name : String
  pub name : String

pub record Value : Type 0 where
  pub address : String
  pub claim_name : String
  pub lifecycle : PoolResourceLifecycle
  pub resource : ObjectReference

-- The order of the tuples `(priority, (resource_index, item_index), claim_name, name)`.
unfoldable pub text_before : Key → Key → Bool
text_before a b =
    if is_lt (compare a.claim_name b.claim_name)
    then true
    else if str_eq a.claim_name b.claim_name
    then is_lt (compare a.name b.name)
    else false

unfoldable pub index_before : Key → Key → Bool
unfolding text_before
index_before a b =
    if ltb a.resource_index b.resource_index
    then true
    else if a.resource_index == b.resource_index
    then if ltb a.item_index b.item_index
      then true
      else if a.item_index == b.item_index
      then text_before a b
      else false
    else false

unfoldable pub before : Key → Key → Bool
unfolding index_before
before a b =
    if ltb_ℤ a.priority b.priority
    then true
    else if eq_ℤ a.priority b.priority
    then index_before a b
    else false

abbrev pub Orders : Type 0
Orders = List (Key × Value)

-- `BTreeMap::insert`: a key that is there already has its value replaced.
unfoldable pub insert_order : Key → Value → Orders → Orders
unfolding before
insert_order k v [] = (k, v) ∷ []
insert_order k v ((l, w) ∷ os) =
    if before k l
    then (k, v) ∷ (l, w) ∷ os
    else if before l k
    then (l, w) ∷ insert_order k v os
    else (l, v) ∷ os

abbrev pub is_claimed_by : String → Option String → Bool
is_claimed_by name none = false
is_claimed_by name (some claim) = str_eq claim name

-- The resources of a request that its claim does not hold yet.
unfoldable pub unclaimed : String → List String → List (PoolResource String) → List String
unclaimed claim_name [] last = []
unclaimed claim_name (name ∷ names) [] = []
unclaimed claim_name (name ∷ names) (l ∷ ls) =
    if is_claimed_by claim_name l.claim
    then unclaimed claim_name names ls
    else name ∷ unclaimed claim_name names ls

abbrev pub key_of : PoolCommitRequestItem → ℕ → ℕ → String → Key
key_of item item_index resource_index name = record {
  priority = item.priority;
  resource_index = resource_index;
  item_index = item_index;
  claim_name = item.name;
  name = name;
}

abbrev pub value_of : PoolCommitRequestItem → String → Value
value_of item name = record {
  address = name;
  claim_name = item.name;
  lifecycle = item.lifecycle;
  resource = endpoint item.pool.namespace name;
}

unfoldable pub item_orders : PoolCommitRequestItem → ℕ → ℕ → List String → Orders → Orders
unfolding insert_order
item_orders item item_index resource_index [] os = os
item_orders item item_index resource_index (name ∷ names) os =
    item_orders item item_index (suc resource_index) names
      (insert_order (key_of item item_index resource_index name) (value_of item name) os)

module _ (db : Database) where
  -- The states are those before the commit.
  unfoldable pub collect_orders : Store db → ℕ → List PoolCommitRequestItem → Orders → Orders
  unfolding item_orders unclaimed try_handle
  collect_orders st item_index [] os = os
  collect_orders st item_index (item ∷ items) os = collect_orders st (suc item_index) items (
      item_orders item item_index 0
        (unclaimed item.name item.pool.resources
          (try_handle db st item.pool.namespace item.pool.resources))
        os)

  -- The loop, which ends with the first resource for which there is no permit.
  unfoldable pub put_all : Orders → Store db → Store db
  unfolding put
  put_all [] st = st
  put_all ((k, v) ∷ os) st =
      let (state, next) = put db st v.resource v.claim_name v.address v.lifecycle in
      let rest = put_all os next in
      elim state [ pending ↦ next | preparing ↦ rest | running ↦ rest ]

  unfoldable pub try_handle_commit : List PoolCommitRequestItem → Store db → Store db
  unfolding collect_orders put_all
  try_handle_commit items st = put_all (collect_orders st 0 items []) st
