-- ===== src/Vine/Session/Changes.antt =====
-- crates/openark-vine-session-api/src/lib.rs, `NodeSession`: the session of a node and its changes.
use eecs_k8s.Prelude.{
  ℕ, String, str_eq, Bool, true, false, not, ◌&&◌, Option, none, some, List, [], unwrap_or,
  if◌then◌else◌,
}
use eecs_k8s.Prelude.Select.{any, find, filter}
use eecs_k8s.Prelude.Dict.{Dict}
use eecs_k8s.Vine.Session.{
  SessionArgs, SessionBinding, SessionProfile, guest, user, vm, infer_compute_mode, Taint, Node,
}
use eecs_k8s.Vine.Session.Metadata.{Texts, Metadata, load_metadata}
use eecs_k8s.Vine.Session.Taints.{
  filter_taint, set_taint, remove_taint, remaining_from, added_at, remaining_of,
}
use eecs_k8s.Vine.Session.Resources.{
  Quantities, Pod, has_label, collect_resource_limits, read_quantity, bytes_f64, cpu_of, bytes_i128,
  memory_of,
}

pub record NodeSession : Type 0 where
  pub metadata : Metadata
  pub node : Node
  pub taints : List Taint
  pub unreachable : Bool

pub data ProfileState : Type 0 where
  changed : (last_profile : String) → ProfileState
  created : SessionBinding → SessionProfile → ProfileState
  deleted : (last_profile : Option String) → ProfileState
  unchanged : SessionBinding → SessionProfile → ProfileState

unfoldable pub has_changed : ProfileState → Bool
has_changed (changed _) = true
has_changed (created _ _) = false
has_changed (deleted _) = true
has_changed (unchanged _ _) = false

-- `self.metadata.bind != Some(true)`
unfoldable pub not_ready : NodeSession → Bool
not_ready s = not (unwrap_or s.metadata.bind false)

unfoldable pub remove_session_revision : NodeSession → NodeSession
remove_session_revision s = record s { metadata = record s.metadata { bind_revision = none } }

abbrev pub same_text : Option String → Option String → Bool
same_text none none = true
same_text (some a) (some b) = str_eq a b
same_text none (some b) = false
same_text (some a) none = false

module _ (texts : Texts) (args : SessionArgs) where
  unfoldable pub load : Node → NodeSession
  unfolding load_metadata any filter_taint
  load node = record {
    metadata = load_metadata texts args node.name node.labels;
    node = node;
    taints = unwrap_or node.taints [];
    unreachable = any (filter_taint "node.kubernetes.io/unreachable") (unwrap_or node.taints []);
  }

module _ (args : SessionArgs) where
  unfoldable pub signing_out : (timestamp : ℕ) → NodeSession → Option ℕ
  unfolding find filter_taint
  signing_out timestamp s =
      remaining_of args.duration_sign_out
        (added_at (find (filter_taint args.label_signed_out) s.taints)) timestamp

  unfoldable pub apply_allocatable :
      (q : Quantities) → Option (Dict String String) → List Pod → Metadata → Metadata
  unfolding collect_resource_limits cpu_of
  apply_allocatable q none pods m = m
  apply_allocatable q (some allocatable) pods m =
      let cpu =
        bytes_f64 q (read_quantity q allocatable "cpu") (collect_resource_limits q "cpu" pods) in
      let memory =
        bytes_i128 q (read_quantity q allocatable "memory")
          (collect_resource_limits q "memory" pods) in
      record m {
        bind_cpu = some (q.show (cpu_of q cpu));
        bind_memory = some (q.show (memory_of memory));
      }

  unfoldable pub apply_node : (q : Quantities) → List Pod → NodeSession → NodeSession
  unfolding filter
  apply_node q pods s =
      let pods = filter (λ pod. not (has_label pod.labels args.label_bind_node)) pods in
      let m = apply_allocatable q s.node.allocatable pods s.metadata in
      record s { metadata = record m { bind_node = m.name } }

  -- The binding of a profile that the session has, or has no longer, in its revision.
  unfoldable pub profile_state :
      Option String → SessionBinding → SessionProfile → Metadata → ProfileState
  profile_state none binding profile m = created binding profile
  profile_state (some last) binding profile m =
      if str_eq last binding.profile && same_text m.bind_revision profile.resource_version
      then unchanged binding profile
      else changed last

  -- When the session was bound: kept where the profile is unchanged.
  abbrev pub kept_timestamp : ProfileState → Option ℕ → Option ℕ
  kept_timestamp (unchanged _ _) since = since
  kept_timestamp (changed _) since = none
  kept_timestamp (created _ _) since = none
  kept_timestamp (deleted _) since = none

  abbrev pub user_of : SessionBinding → Option String
  user_of b = elim b.user_kind [ guest ↦ none | user ↦ b.user_name ]

  unfoldable pub bind_metadata : SessionBinding → SessionProfile → ℕ → Metadata → Metadata
  unfolding profile_state infer_compute_mode
  bind_metadata binding profile timestamp m =
      let since =
        kept_timestamp (profile_state m.bind_profile binding profile m) m.bind_timestamp in
      record m {
        bind = some true;
        bind_namespace = none;
        bind_persistent = some (unwrap_or profile.persistence_enabled false);
        bind_privileged = binding.user_privileged;
        bind_profile = some binding.profile;
        bind_revision = profile.resource_version;
        bind_timestamp = some (unwrap_or since timestamp);
        bind_user = user_of binding;
        compute_mode = some (infer_compute_mode profile);
      }

  unfoldable pub unbind_metadata : Metadata → Metadata
  unbind_metadata m = record m {
    bind = some false;
    bind_namespace = none;
    bind_persistent = some false;
    bind_profile = none;
    bind_revision = none;
    bind_timestamp = none;
    bind_user = none;
  }

  unfoldable pub apply_profile :
      Option (SessionBinding × SessionProfile) → ℕ → NodeSession → NodeSession × ProfileState
  unfolding bind_metadata unbind_metadata set_taint remove_taint profile_state
  apply_profile none timestamp s = (
    record s {
      metadata = unbind_metadata s.metadata;
      taints = remove_taint args.label_bind_profile (remove_taint args.label_bind s.taints);
    },
    deleted s.metadata.bind_profile,
  )
  apply_profile (some (binding, profile)) timestamp s = (
    record s {
      metadata = bind_metadata binding profile timestamp s.metadata;
      taints =
          (set_taint args.label_bind_profile binding.profile timestamp
            (set_taint args.label_bind "true" timestamp s.taints).0).0;
    },
    profile_state s.metadata.bind_profile binding profile s.metadata,
  )

  -- The session with its signing state, and what is left of signing out.
  unfoldable pub set_sign_out :
      (timestamp : ℕ) (sign_out : Bool) → NodeSession → NodeSession × Option ℕ
  unfolding unbind_metadata set_taint remaining_from
  set_sign_out timestamp true s =
      let tainted = set_taint args.label_signed_out "true" timestamp s.taints in
      (
        record s {
          metadata = record (unbind_metadata s.metadata) {
            compute_mode = some vm;
            signed_out = some true;
          };
          taints = tainted.0;
        },
        remaining_from args.duration_sign_out tainted.1 timestamp,
      )
  set_sign_out timestamp false s = (
    record s { metadata = record s.metadata { signed_out = some false }; unreachable = false },
    none,
  )
