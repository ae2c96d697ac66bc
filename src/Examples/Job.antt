-- ===== src/Examples/Job.antt =====
-- A join job that succeeded (crates/openark-kiss-operator/src/job.rs).
use eecs_k8s.Prelude.{◌≡◌, refl, none, some, [], ◌∷◌, All, str_eq, if◌then◌else◌}
use eecs_k8s.Prelude.Int.{pos}
use eecs_k8s.Prelude.Flow.{ok}
use eecs_k8s.Kiss.Box.{running}
use eecs_k8s.Kiss.Operator.{requeue}
use eecs_k8s.Kiss.Job.{
  Job, JobContext, label_box_name, label_completed_state, state_patched, state_reported,
  reconcile_job,
}
use eecs_k8s.Kiss.Job.Writes.{IsJustified, reconcile_job-IsJustified}
use eecs_k8s.Kiss.Job.Total.{IsQuiet, reconcile_job-IsQuiet}

abbrev context : JobContext
context = record {
  interval = 30;
  now = 100;
  patch_status = λ name state. none;
  publish = λ state. none;
  parse_state = λ text. if str_eq text "Running" then some running else none;
}

abbrev join_job : Job
join_job = record {
  labels = (label_box_name, "b1") ∷ (label_completed_state, "Running") ∷ [];
  status = some (record { succeeded = some (pos 1); failed = none });
}

join_job_lem :
    reconcile_job context join_job
    ≡ (ok (requeue 30), state_patched "b1" running 100 ∷ state_reported running ∷ [])
unfolding reconcile_job
join_job_lem = refl

reconcile_job-IsJustified_example :
    All (IsJustified context join_job) (reconcile_job context join_job).1
reconcile_job-IsJustified_example = reconcile_job-IsJustified context join_job

reconcile_job-IsQuiet_example : IsQuiet (reconcile_job context join_job).0
reconcile_job-IsQuiet_example = reconcile_job-IsQuiet context join_job
