-- ===== src/Vine/Operator.antt =====
-- crates/openark-vine-session-operator/src/main.rs, `reconcile`: a node is bound to the session of a
-- user, and the application of the session is created and deleted.
pub mod Reconcile
pub mod Chosen
pub mod Granted
pub mod Deferred
use Prim.Native.Nat.{Ordering, compare as compare_ℕ}
use Prim.Native.String.{compare, then as and_then}
use eecs_k8s.Prelude.{
  ℕ, ◌+◌, ◌%◌, String, str_eq, Bool, true, false, not, ◌&&◌, ◌||◌, Option, none, some, List, [],
  ◌∷◌, is_some, unwrap_or, if◌then◌else◌,
}
use eecs_k8s.Prelude.Panic.{Result}
use eecs_k8s.Prelude.Panic as Panic
use eecs_k8s.Prelude.Flow.{return, Flow, ◌>>=◌, ◌>>◌, pure, fail, call}
use eecs_k8s.Prelude.Select.{filter, all}
use eecs_k8s.Prelude.Dict.{string_eq, Dict, get}
use eecs_k8s.Vine.Session.{SessionArgs, SessionGpu, SessionBinding, SessionProfile, Node}
use eecs_k8s.Vine.Session.Metadata.{Texts}
use eecs_k8s.Vine.Session.Resources.{Quantities, Pod}
use eecs_k8s.Vine.Session.Equality.{same_session}
use eecs_k8s.Vine.Session.Changes.{
  apply_profile, not_ready, apply_node, signing_out, set_sign_out, has_changed, load, NodeSession,
  ProfileState, changed, created, deleted, unchanged, remove_session_revision,
}

-- The calls that change something. An application is what it is built from.
pub data Event : Type 0 where
  created_app : NodeSession → SessionBinding → SessionProfile → Event
  deleted_app : Event
  patched_node : NodeSession → Event
  reported : (message : String) → Event

pub data Action : Type 0 where
  requeue : (duration : ℕ) → Action
  await_change : Action

pub data AppState : Type 0 where
  is_created is_deleted is_deleting node_not_ready : AppState

-- Of the application of a session, what is read of it.
pub record App : Type 0 where
  pub creation_timestamp : Option ℕ
  pub deletion_timestamp : Option ℕ
  pub sync_status : Option String

-- What the cluster answers during a reconciliation, and what of the application is built elsewhere:
-- which resources are devices of NVIDIA, by a regular expression, whether a USB controller is among the
-- devices of the host, and whether the values are exported.
pub record Context : Type 1 where
  pub texts : Texts
  pub args : SessionArgs
  pub quantities : Quantities
  pub drain_unreachable_nodes : Bool
  pub now : ℕ
  pub app : Result String (Option App)
  pub pods : Result String (List Pod)
  pub bindings : Result String (List SessionBinding)
  pub profile_of : String → Result String (Option SessionProfile)
  pub app_metadata : Result String Bool
  pub is_device : String → Bool
  pub has_usb_controller : Bool
  pub exported : Option String
  pub create_result : Option String
  pub delete_result : Option String
  pub patch_result : Option String
  pub report_result : Option String

abbrev pub Step : Type 0 → Type 0
Step A = Flow Event String Action A

abbrev pub attempt : {A : Type 0} → Result String A → Step A
attempt (Panic.ok a) = pure a
attempt (Panic.err e) = fail e
attempt Panic.panic = fail "panic"

abbrev pub has_value : Option String → String → Bool
has_value none value = false
has_value (some text) value = str_eq text value

unfoldable pub is_selected : (node selector : Option (Dict String String)) → Bool
unfolding all get
is_selected (some node) (some selector) = all (λ s. has_value (get node s.0) s.1) selector
is_selected none (some []) = true
is_selected none (some (_ ∷ _)) = false
is_selected (some _) none = true
is_selected none none = true

-- A binding that is not being deleted, is enabled and selects the node.
unfoldable pub is_candidate : Option (Dict String String) → SessionBinding → Bool
unfolding is_selected
is_candidate labels b =
    not (is_some b.deletion_timestamp)
    && unwrap_or b.enabled true
    && is_selected labels b.node_selector

abbrev pub compare_option : {A : Type 0} → (A → A → Ordering) → Option A → Option A → Ordering
compare_option f none none = Ordering.eq
compare_option f none (some b) = Ordering.lt
compare_option f (some a) none = Ordering.gt
compare_option f (some a) (some b) = f a b

-- The order of an `i32` given by its residue.
abbrev pub signed_i32 : ℕ → ℕ
signed_i32 n = (n + 2_147_483_648) % 4_294_967_296

unfoldable pub compare_bindings : SessionBinding → SessionBinding → Ordering
compare_bindings a b = and_then (compare_ℕ (signed_i32 a.priority) (signed_i32 b.priority)) (
    and_then (compare_option compare_ℕ a.creation_timestamp b.creation_timestamp)
      (compare_option compare a.uid b.uid))

abbrev pub is_less : Ordering → Bool
is_less Ordering.lt = true
is_less Ordering.eq = false
is_less Ordering.gt = false

-- `min_by_key`: the first of the least.
unfoldable pub least_from : SessionBinding → List SessionBinding → SessionBinding
unfolding compare_bindings
least_from best [] = best
least_from best (b ∷ bs) = least_from (if is_less (compare_bindings b best) then b else best) bs

unfoldable pub least : List SessionBinding → Option SessionBinding
unfolding least_from
least [] = none
least (b ∷ bs) = some (least_from b bs)

abbrev pub zip_profile :
    SessionBinding → Option SessionProfile → Option (SessionBinding × SessionProfile)
zip_profile b none = none
zip_profile b (some p) = some (b, p)

abbrev pub is_ok : {A : Type 0} → Result String A → Bool
is_ok (Panic.ok a) = true
is_ok (Panic.err e) = false
is_ok Panic.panic = false
