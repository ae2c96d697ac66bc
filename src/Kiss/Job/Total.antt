-- ===== src/Kiss/Job/Total.antt =====
-- The job handler does not panic.
use eecs_k8s.Prelude.{
  ◌≡◌, refl, String, Bool, true, false, Option, none, some, arith, if◌then◌else◌,
}
use eecs_k8s.Prelude.Flow.{Outcome, ok, returned, failed, return, pure}
use eecs_k8s.Kiss.Box
use eecs_k8s.Kiss.Box.{BoxState}
use eecs_k8s.Kiss.Operator.{Action, await_change, requeue}
use eecs_k8s.Kiss.Job.{
  Job, JobContext, JobError, JobStep, service, panicked, get_box_name, is_critical, completed_state,
  has_completed, has_failed, patch_box, update_box_state, complete_job, reconcile_managed,
  reconcile_job,
}

abbrev pub IsQuiet : {A : Type 0} → Outcome JobError Action A → Type 0
IsQuiet (ok a) = Unit
IsQuiet (returned r) = Unit
IsQuiet (failed (service e)) = Unit
IsQuiet (failed panicked) = ⊥

IsQuiet-if :
    {A : Type 0} (b : Bool) (m n : JobStep A)
    → IsQuiet m.0
    → IsQuiet n.0
    → IsQuiet (if b then m else n).0
IsQuiet-if true m n h k = h
IsQuiet-if false m n h k = k

patch_box-IsQuiet :
    (ctx : JobContext) (s : BoxState) (name : String) → IsQuiet (patch_box ctx (some name) s).0
unfolding patch_box
patch_box-IsQuiet ctx s name = ground arith

module _ (ctx : JobContext) (job : Job) (name : String) (e : get_box_name job ≡ some name) where
  update_box_state-IsQuiet : (s : BoxState) → IsQuiet (update_box_state ctx job s).0
  unfolding update_box_state
  update_box_state-IsQuiet s = named (get_box_name job) e
    where
      named : (o : Option String) → o ≡ some name → IsQuiet (patch_box ctx o s).0
      named o p = rw p (patch_box-IsQuiet ctx s name)

  complete_job-IsQuiet : (s : Option BoxState) → IsQuiet (complete_job ctx job s).0
  unfolding complete_job
  complete_job-IsQuiet none = tt
  complete_job-IsQuiet (some s) = update_box_state-IsQuiet s

  reconcile_managed-IsQuiet : IsQuiet (reconcile_managed ctx job).0
  unfolding reconcile_managed
  reconcile_managed-IsQuiet = IsQuiet-if (is_critical job) (return await_change) _ tt (
      IsQuiet-if (has_completed job) (complete_job ctx job (completed_state ctx job)) _
        (complete_job-IsQuiet (completed_state ctx job))
        (IsQuiet-if (has_failed job) (update_box_state ctx job Box.failed)
          (pure (requeue ctx.interval)) (update_box_state-IsQuiet Box.failed) tt))

-- The handler of a job does not panic: where it unwraps the name of the box, there is one.
pub reconcile_job-IsQuiet : (ctx : JobContext) (job : Job) → IsQuiet (reconcile_job ctx job).0
unfolding reconcile_job
reconcile_job-IsQuiet ctx job = managed (get_box_name job) refl
  where
    managed :
        (o : Option String)
        → get_box_name job ≡ o
        → IsQuiet
            (elim o as (λ _. JobStep Action) [
              | none ↦ return await_change
              | some n ↦ reconcile_managed ctx job
            ]).0
    managed none e = tt
    managed (some name) e = reconcile_managed-IsQuiet ctx job name e
