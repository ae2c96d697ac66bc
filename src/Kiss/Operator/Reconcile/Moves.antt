-- ===== src/Kiss/Operator/Reconcile/Moves.antt =====
-- What a move of a box consists of, where every service answers.
use eecs_k8s.Prelude.{
  String, ◌≡◌, refl, ◌⊎◌, inl, inr, false, Option, none, some, List, [], ◌∷◌, arith,
}
use eecs_k8s.Prelude.Flow.{ok}
use eecs_k8s.Kiss.Ansible.{AnsibleJob, normal}
use eecs_k8s.Kiss.Box
use eecs_k8s.Kiss.Box.{
  BoxAccessSpec, default_access, BoxState, BoxGroupSpec, BoxStatus, BoxCrd, commissioning, ready,
  joining, generic_worker, external_worker, fallback_update, as_task, next, timeout, is_default,
  last_updated_or_created, state_eq, role_eq,
}
use eecs_k8s.Kiss.Operator.{
  access, bind_group, resource_type, Context, Event, Note, accepted, requeue, patched_status,
  spawned, reported, updated_state, old_state,
}
use eecs_k8s.Kiss.Operator.Reconcile.{
  ansible_job, next_status, spawned_or_wait, spawn_task, update_status, advance,
}

-- Every service does what it is asked.
pub record IsWilling (ctx : Context) : Type 0 where
  pub spawns : (job : AnsibleJob) → ctx.spawn job ≡ accepted
  pub patches : (s : BoxStatus) → ctx.patch_status s ≡ none
  pub publishes : (n : Note) → ctx.publish n ≡ none

abbrev pub IsAtWork : BoxCrd → Type 0
IsAtWork b = (old_state b ≡ commissioning) ⊎ (old_state b ≡ joining)

abbrev pub moved_by : Context → BoxCrd → BoxState → Option BoxGroupSpec → String → List Event
moved_by ctx b st group task =
    spawned (ansible_job b st group task)
    ∷ patched_status (next_status ctx b st)
    ∷ reported (updated_state st)
    ∷ []

-- A job on the box, that is not critical and has the resources of a job of a box that is set up.
abbrev pub job_of :
    BoxCrd → BoxState → Option BoxGroupSpec → (task : String) → Option String → AnsibleJob
job_of b st group task cron = record {
  cron = cron;
  task = task;
  target = b;
  new_group = group;
  new_state = some st;
  is_critical = false;
  resource_type = normal;
  use_workers = false;
}

-- The methods of access and the bound group of a status, if there is one.
abbrev pub access_before : Option BoxStatus → BoxAccessSpec
access_before none = default_access
access_before (some status) = status.access

abbrev pub group_before : Option BoxStatus → Option BoxGroupSpec
group_before none = none
group_before (some status) = status.bind_group

-- The job is spawned, then the state is written with the access methods as they were, a group that is
-- bound and the time of the write, and then it is reported.
abbrev pub moved_to : Context → BoxCrd → AnsibleJob → BoxState → Option BoxGroupSpec → List Event
moved_to ctx b job st bound =
    spawned job
    ∷ patched_status (record {
      state = st;
      access = access_before b.status;
      bind_group = bound;
      last_updated = ctx.later;
    })
    ∷ reported (updated_state st)
    ∷ []

pub overdue_trace :
    (ctx : Context) (b : BoxCrd)
    → IsAtWork b
    → moved_by ctx b Box.failed none "reset"
      ≡ moved_to ctx b
          (job_of b Box.failed none "reset" (some "@hourly"))
          Box.failed
          (group_before b.status)
unfolding access bind_group ansible_job next_status resource_type state_eq Box.cron
overdue_trace ctx b (inl w) = rw w refl
overdue_trace ctx b (inr w) = rw w refl

pub joins_trace :
    (ctx : Context) (b : BoxCrd)
    → old_state b ≡ ready
    → moved_by ctx b joining (some b.spec.group) "join"
      ≡ moved_to ctx b
          (job_of b joining (some b.spec.group) "join" none)
          joining
          (some b.spec.group)
unfolding access bind_group ansible_job next_status resource_type state_eq Box.cron
joins_trace ctx b w = rw w refl

module _ (ctx : Context) (b : BoxCrd) (willing : IsWilling ctx) where
  pub advance_willing :
      (st : BoxState) (g : Option BoxGroupSpec) (task : String)
      → state_eq (old_state b) st ≡ false
      → as_task st ≡ some task
      → advance ctx b st g ≡ (ok (requeue ctx.interval), moved_by ctx b st g task)
  unfolding advance spawn_task spawned_or_wait update_status next_status
  advance_willing st g task moved h = ground (
    arith,
    willing.spawns (ansible_job b st g task),
    willing.patches (next_status ctx b st),
    willing.publishes (updated_state st),
  )
