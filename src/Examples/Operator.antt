-- ===== src/Examples/Operator.antt =====
-- Boxes that the operator reconciles (crates/openark-kiss-operator/src/box.rs).
use eecs_k8s.Prelude.{
  ℕ, ◌+◌, ◌*◌, ◌≡◌, refl, inl, inr, true, false, none, some, [], ◌∷◌, arith, All,
}
use eecs_k8s.Prelude.Flow.{ok, returned}
use eecs_k8s.Kiss
use eecs_k8s.Kiss.Box
use eecs_k8s.Kiss.Box.{
  BoxState, BoxSpec, BoxCrd, new, commissioning, ready, joining, running, compute, generic_worker,
  default_access, fallback_update, second, timeout_new,
}
use eecs_k8s.Kiss.Operator.{
  bind_group, Context, Event, accepted, rejected, requeue, reported, refused, patched_status,
  cannot_spawn,
}
use eecs_k8s.Kiss.Operator.Reconcile.{reconcile, ansible_job}
use eecs_k8s.Kiss.Operator.Reconcile.Edges.{reconcile-Follows, Follows}
use eecs_k8s.Kiss.Operator.Reconcile.Guards.{MayJoin, Faithful, reconcile-Faithful}
use eecs_k8s.Kiss.Operator.Reconcile.Order.{JobFirst, reconcile-JobFirst}
use eecs_k8s.Kiss.Operator.Reconcile.Moves.{IsWilling, job_of, moved_to, group_before}
use eecs_k8s.Kiss.Operator.Reconcile.Timely.{
  WritesNoStatus, reconcile_overdue, reconcile_in_time, reconcile_joins,
}

abbrev spec : BoxSpec
spec = record {
  group = record { cluster_name = "edge"; role = compute };
  machine = record { uuid = 7 };
  power = none;
}

abbrev box_in : BoxState → BoxCrd
box_in st = record {
  creation_timestamp = some 0;
  verify_bind_group_label = none;
  spec = spec;
  status = some (record {
    state = st;
    access = record { primary = some (record { address = 10; speed_mbps = none }) };
    bind_group = none;
    last_updated = 100 * second;
  });
}

abbrev at_time : ℕ → Context
at_time t = record {
  group_default_role = generic_worker;
  group_enable_default_cluster = true;
  enable_cronjobs = false;
  interval = 30 * second;
  now = t;
  later = t + 1;
  patch = λ _. none;
  patch_status = λ _. none;
  spawn = λ _. accepted;
  publish = λ _. none;
}

at_time-IsWilling : (t : ℕ) → IsWilling (at_time t)
at_time-IsWilling t = record { spawns = λ _. refl; patches = λ _. refl; publishes = λ _. refl }

may_join : MayJoin (at_time 0) (box_in ready)
unfolding Kiss.Operator.is_bind_group_updated
may_join = record {
  was_ready = unfold Kiss.Operator.old_state in refl;
  internal = unfold Box.role_eq in refl;
  enabled = refl;
  unbound = refl;
}

reconcile-Follows_example :
    All (Follows (box_in new)) (reconcile (at_time (200 * second)) (box_in new)).1
reconcile-Follows_example = reconcile-Follows (at_time (200 * second)) (box_in new)

reconcile-Faithful_example :
    All (Faithful (at_time 0) (box_in ready)) (reconcile (at_time 0) (box_in ready)).1
reconcile-Faithful_example = reconcile-Faithful (at_time 0) (box_in ready)

reconcile-JobFirst_example : JobFirst none (reconcile (at_time 0) (box_in ready)).1
reconcile-JobFirst_example = reconcile-JobFirst (at_time 0) (box_in ready)

reconcile_overdue_example : reconcile (at_time (7301 * second)) (box_in commissioning) ≡ (
  ok (requeue (30 * second)),
  moved_to
      (at_time (7301 * second))
      (box_in commissioning)
      (job_of (box_in commissioning) Box.failed none "reset" (some "@hourly"))
      Box.failed
      (group_before (box_in commissioning).status),
)
unfolding Box.role_eq Kiss.Operator.old_state Box.last_updated_or_created
reconcile_overdue_example =
    reconcile_overdue (at_time (7301 * second)) (box_in commissioning) (100 * second)
      (at_time-IsWilling (7301 * second)) refl (inl refl) refl (omega arith)

reconcile_in_time_example :
    All WritesNoStatus (reconcile (at_time (7300 * second)) (box_in joining)).1
unfolding Kiss.Operator.old_state Box.last_updated_or_created
reconcile_in_time_example =
    reconcile_in_time (at_time (7300 * second)) (box_in joining) (100 * second) (inr refl) refl
      (omega arith)

reconcile_joins_example : reconcile (at_time 0) (box_in ready) ≡ (
  ok (requeue (30 * second)),
  moved_to
      (at_time 0)
      (box_in ready)
      (job_of (box_in ready) joining (some spec.group) "join" none)
      joining
      (some spec.group),
)
unfolding Box.role_eq
reconcile_joins_example =
    reconcile_joins (at_time 0) (box_in ready) (at_time-IsWilling 0) refl may_join

-- A refused job leaves the box as it was, and is tried again after a minute.
abbrev busy : Context
busy = record (at_time 0) { spawn = λ _. rejected }

refused_job : reconcile busy (box_in ready) ≡ (
  returned (requeue (60 * second)),
  refused (ansible_job (box_in ready) joining (some spec.group) "join")
      ∷ reported cannot_spawn
      ∷ [],
)
unfolding reconcile Box.state_eq Box.role_eq Box.next Box.timeout Box.group_eq Box.is_default
    Box.as_task eecs_k8s.Kiss.Operator.is_timed_out eecs_k8s.Kiss.Operator.is_bind_group_updated
refused_job = refl
