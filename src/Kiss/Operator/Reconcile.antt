-- ===== src/Kiss/Operator/Reconcile.antt =====
-- crates/openark-kiss-operator/src/box.rs: the end of `reconcile`, which spawns the job and writes
-- the status, and the whole handler.

pub mod Calls
pub mod Edges
pub mod Guards
pub mod Order
pub mod Moves
pub mod Timely
use eecs_k8s.Prelude.{
  List, [], ◌∷◌, ℕ, ◌*◌, Bool, true, false, not, ◌&&◌, ◌||◌, Option, none, some, String, is_some,
  if◌then◌else◌,
}
use eecs_k8s.Prelude.Flow.{Flow, Outcome, ◌>>=◌, ◌>>◌, pure, return, fail, call}
use eecs_k8s.Kiss.Ansible.{AnsibleJob}
use eecs_k8s.Kiss.Box.{
  BoxState, BoxGroupSpec, BoxStatus, BoxCrd, joining, as_task, cron, next, second, state_eq,
}
use eecs_k8s.Kiss.Operator.{
  Action, Context, Event, Spawned, Step, accepted, rejected, broken, requeue, await_change, spawned,
  refused, patched_status, cannot_spawn, waiting, updated_state, access, apply_default_role,
  bind_group, bind_new_group, capture, old_state, report_update, resource_type, wait_access,
}

abbrev pub retry_spawn : ℕ
retry_spawn = 1 * 60 * second

unfoldable pub ansible_job : BoxCrd → BoxState → Option BoxGroupSpec → String → AnsibleJob
unfolding old_state
ansible_job b new_state new_group task = record {
  cron = cron new_state;
  task = task;
  target = b;
  new_group = new_group;
  new_state = some new_state;
  is_critical = false;
  resource_type = resource_type (old_state b);
  use_workers = false;
}

-- A job that is not spawned is tried again a minute later.
unfoldable pub spawned_or_wait : Context → AnsibleJob → Spawned → Step (Unit {0})
unfolding report_update
spawned_or_wait ctx job accepted = (Outcome.ok tt, spawned job ∷ [])
spawned_or_wait ctx job rejected = do
  call (refused job) none
  report_update ctx cannot_spawn
  return (requeue retry_spawn)
spawned_or_wait ctx job (broken e) = fail e

unfoldable pub spawn_task :
    Context → BoxCrd → BoxState → Option BoxGroupSpec → Option String → Step (Unit {0})
unfolding spawned_or_wait ansible_job
spawn_task ctx b new_state new_group none = pure tt
spawn_task ctx b new_state new_group (some task) =
    let job = ansible_job b new_state new_group task in spawned_or_wait ctx job (ctx.spawn job)

-- The group is bound before the box joins.
unfoldable pub next_status : Context → BoxCrd → BoxState → BoxStatus
unfolding access bind_group
next_status ctx b new_state = record {
  state = new_state;
  access = access b;
  bind_group = if state_eq new_state joining then some b.spec.group else bind_group b;
  last_updated = ctx.later;
}

unfoldable pub update_status : Context → BoxCrd → BoxState → Step (Unit {0})
unfolding report_update next_status
update_status ctx b new_state = do
  call (patched_status (next_status ctx b new_state))
      (ctx.patch_status (next_status ctx b new_state))
  report_update ctx (updated_state new_state)

unfoldable pub await : Context → Step Action
unfolding report_update
await ctx = do report_update ctx waiting; pure await_change

-- Spawn an Ansible job and move the box, or wait.
unfoldable pub advance : Context → BoxCrd → BoxState → Option BoxGroupSpec → Step Action
unfolding old_state spawn_task update_status await
advance ctx b new_state new_group =
    let same = state_eq (old_state b) new_state in
    if not same || ctx.enable_cronjobs && is_some (cron new_state)
    then (do
      spawn_task ctx b new_state new_group (as_task new_state)
      if same then await ctx else do update_status ctx b new_state; pure (requeue ctx.interval))
    else (if same then await ctx else pure (requeue ctx.interval))

unfoldable pub reconcile : Context → BoxCrd → Step Action
unfolding apply_default_role wait_access capture bind_new_group advance
reconcile ctx b = do
  apply_default_role ctx b
  waited ← wait_access ctx b
  let new_state = capture ctx b waited
  new_group ← bind_new_group ctx b new_state
  advance ctx b new_state new_group
