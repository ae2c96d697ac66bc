-- ===== src/Vine/Session/Equality.antt =====
-- crates/openark-vine-session-api/src/lib.rs: the derived equality of sessions.
use eecs_k8s.Prelude.{str_eq, Bool, true, false, ◌&&◌, ◌==◌, Option, none, some, List, [], ◌∷◌}
use eecs_k8s.Vine.Session.{SessionGpu, intel, nvidia, ComputeMode, container, kueue, vm, Taint}
use eecs_k8s.Vine.Session.Metadata.{Metadata}
use eecs_k8s.Vine.Session.Changes.{NodeSession}

abbrev pub same_option : {A : Type 0} → (A → A → Bool) → Option A → Option A → Bool
same_option f none none = true
same_option f (some a) (some b) = f a b
same_option f none (some b) = false
same_option f (some a) none = false

abbrev pub same_mode : ComputeMode → ComputeMode → Bool
same_mode container container = true
same_mode kueue kueue = true
same_mode vm vm = true
same_mode _ _ = false

abbrev pub same_gpu : SessionGpu → SessionGpu → Bool
same_gpu intel intel = true
same_gpu nvidia nvidia = true
same_gpu _ _ = false

abbrev pub same_bool : Bool → Bool → Bool
same_bool true b = b
same_bool false true = false
same_bool false false = true

abbrev pub same_taint : Taint → Taint → Bool
same_taint a b =
    str_eq a.key b.key
    && same_option str_eq a.value b.value
    && str_eq a.effect b.effect
    && same_option ◌==◌ a.time_added b.time_added

abbrev pub same_taints : List Taint → List Taint → Bool
same_taints [] [] = true
same_taints (a ∷ more) (b ∷ bs) = same_taint a b && same_taints more bs
same_taints [] (b ∷ bs) = false
same_taints (a ∷ more) [] = false

abbrev pub same_metadata : Metadata → Metadata → Bool
same_metadata a b =
    same_option str_eq a.alias b.alias
    && same_option same_bool a.bind b.bind
    && same_option str_eq a.bind_cpu b.bind_cpu
    && same_option str_eq a.bind_memory b.bind_memory
    && same_option str_eq a.bind_namespace b.bind_namespace
    && same_option str_eq a.bind_node b.bind_node
    && same_option same_bool a.bind_persistent b.bind_persistent
    && same_option same_bool a.bind_privileged b.bind_privileged
    && same_option str_eq a.bind_profile b.bind_profile
    && same_option str_eq a.bind_revision b.bind_revision
    && same_option str_eq a.bind_storage b.bind_storage
    && same_option ◌==◌ a.bind_timestamp b.bind_timestamp
    && same_option str_eq a.bind_user b.bind_user
    && same_option same_mode a.compute_mode b.compute_mode
    && same_option same_gpu a.gpu b.gpu
    && same_option str_eq a.name b.name
    && same_option same_bool a.signed_out b.signed_out

-- The sessions that are compared are of the same node, which is equal to itself.
unfoldable pub same_session : NodeSession → NodeSession → Bool
same_session a b =
    same_metadata a.metadata b.metadata
    && same_taints a.taints b.taints
    && same_bool a.unreachable b.unreachable
