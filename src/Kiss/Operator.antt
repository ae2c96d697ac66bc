-- ===== src/Kiss/Operator.antt =====
-- crates/openark-kiss-operator/src/box.rs: the reconciliation of a box.
pub mod Reconcile
use eecs_k8s.Prelude.{
  ℕ, ◌+◌, ◌*◌, Bool, true, false, not, ◌&&◌, ◌||◌, Option, none, some, ltb, is_some, unwrap_or,
  if◌then◌else◌,
}
use eecs_k8s.Prelude.Flow.{Flow, ◌>>=◌, ◌>>◌, pure, return, call}
use eecs_k8s.Kiss.Ansible.{AnsibleJob, AnsibleResourceType, minimal, normal}
use eecs_k8s.Kiss.Box.{
  BoxState, BoxGroupRole, BoxGroupSpec, BoxAccessSpec, BoxSpec, BoxStatus, BoxCrd, new,
  commissioning, ready, joining, running, group_changed, failed, disconnected, generic_worker,
  external_worker, as_task, cron, next, second, timeout, timeout_new, is_default, default_access,
  last_updated_or_created, state_eq, role_eq, group_eq,
}

-- `kube::Error`, by its code.
pub data Error : Type 0 where
  api_error : ℕ → Error

-- `kube::runtime::controller::Action`.
pub data Action : Type 0 where
  requeue : ℕ → Action
  await_change : Action

-- The notes of the published events.
pub data Note : Type 0 where
  changed_default_role : BoxGroupRole → Note
  skipped_external skipped_default_cluster skipped_joined : Note
  cannot_spawn : Note
  waiting : Note
  updated_state : BoxState → Note

-- The calls of one reconciliation that succeeded; `refused` is a spawn that returned false.
pub data Event : Type 0 where
  patched_spec : BoxSpec → Event
  patched_status : BoxStatus → Event
  spawned refused : AnsibleJob → Event
  reported : Note → Event

-- What `AnsibleClient::spawn` answers.
pub data Spawned : Type 0 where
  accepted rejected : Spawned
  broken : Error → Spawned

-- The configuration, the clock at both readings, and the answers of the services.
pub record Context : Type 0 where
  pub group_default_role : BoxGroupRole
  pub group_enable_default_cluster : Bool
  pub enable_cronjobs : Bool
  pub interval : ℕ
  pub now : ℕ
  pub later : ℕ
  pub patch : BoxSpec → Option Error
  pub patch_status : BoxStatus → Option Error
  pub spawn : AnsibleJob → Spawned
  pub publish : Note → Option Error

abbrev pub Step : Type 0 → Type 0
Step A = Flow Event Error Action A

report_update : Context → Note → Step (Unit {0})
report_update ctx note = call (reported note) (ctx.publish note)

-- `old_state`: a box with no status is new.
unfoldable pub old_state : BoxCrd → BoxState
old_state b = elim b.status [ some status ↦ status.state | none ↦ new ]

unfoldable pub access : BoxCrd → BoxAccessSpec
access b = elim b.status [ some status ↦ status.access | none ↦ default_access ]

unfoldable pub bind_group : BoxCrd → Option BoxGroupSpec
bind_group b = elim b.status [ some status ↦ status.bind_group | none ↦ none ]

with_default_role : Context → BoxSpec → BoxSpec
with_default_role ctx spec = record spec {
  group = record (spec.group) { role = ctx.group_default_role };
}

unfoldable pub apply_default_role : Context → BoxCrd → Step (Unit {0})
unfolding report_update with_default_role
apply_default_role ctx b =
    if role_eq b.spec.group.role generic_worker
      && not (role_eq b.spec.group.role ctx.group_default_role)
    then (do
      call (patched_spec (with_default_role ctx b.spec)) (ctx.patch (with_default_role ctx b.spec))
      report_update ctx (changed_default_role ctx.group_default_role)
      return (requeue ctx.interval))
    else pure tt

unfoldable pub is_bind_group_updated : BoxCrd → Bool
unfolding bind_group
is_bind_group_updated b = elim (bind_group b) [
  | some group ↦ not (group_eq group b.spec.group)
  | none ↦ true
]

has_access : BoxCrd → Bool
unfolding access
has_access b = is_some (access b).primary

-- The time is past `from + limit`, where `from` is known.
past : ℕ → Option ℕ → ℕ → Bool
past now none limit = false
past now (some from) limit = ltb (from + limit) now

-- Wait for new boxes with no access method; the state to go on with.
unfoldable pub wait_access : Context → BoxCrd → Step BoxState
unfolding old_state has_access past
wait_access ctx b =
    if state_eq (old_state b) new && not (has_access b)
    then (if past ctx.now (last_updated_or_created b) timeout_new
        then pure disconnected
        else return (requeue timeout_new))
    else pure (next (old_state b))

unfoldable pub is_timed_out : Context → BoxCrd → Bool
unfolding old_state past
is_timed_out ctx b = elim (timeout (old_state b)) [
  | none ↦ false
  | some limit ↦ past ctx.now (last_updated_or_created b) limit
]

-- The timeout, and then a changed group, override the state.
unfoldable pub capture : Context → BoxCrd → BoxState → BoxState
unfolding old_state
capture ctx b new_state =
    if state_eq (old_state b) running && is_bind_group_updated b
    then disconnected
    else if is_timed_out ctx b
    then failed
    else new_state

-- The status that a box joined before gets back.
joined_status : Context → BoxCrd → BoxStatus
unfolding access bind_group
joined_status ctx b = record {
  state = running;
  access = access b;
  bind_group = bind_group b;
  last_updated = ctx.later;
}

unfoldable pub bind_new_group : Context → BoxCrd → BoxState → Step (Option BoxGroupSpec)
unfolding report_update old_state joined_status
bind_new_group ctx b new_state =
    if not (state_eq (old_state b) joining) && state_eq new_state joining
    then (if role_eq b.spec.group.role external_worker
        then (do report_update ctx skipped_external; return (requeue ctx.interval))
        else if not ctx.group_enable_default_cluster
            && (is_default b.spec.group && role_eq b.spec.group.role generic_worker)
        then (do report_update ctx skipped_default_cluster; return (requeue ctx.interval))
        else if not (is_bind_group_updated b)
        then (do
          call (patched_status (joined_status ctx b)) (ctx.patch_status (joined_status ctx b))
          report_update ctx skipped_joined
          return (requeue ctx.interval))
        else pure (some b.spec.group))
    else pure none

unfoldable pub resource_type : BoxState → AnsibleResourceType
resource_type new = normal
resource_type commissioning = normal
resource_type ready = normal
resource_type joining = normal
resource_type running = minimal
resource_type group_changed = minimal
resource_type failed = minimal
resource_type disconnected = minimal
