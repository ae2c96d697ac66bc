-- ===== src/Kiss/Job/Writes.antt =====
-- The states that the end of a job writes.
use eecs_k8s.Prelude.{◌≡◌, ◌⊎◌, refl, inl, inr, String, true, false, Option, none, some, All, arith}
use eecs_k8s.Prelude.Flow.{return, pure, All-if}
use eecs_k8s.Kiss.Box
use eecs_k8s.Kiss.Box.{BoxState}
use eecs_k8s.Kiss.Operator.{Action, requeue, await_change}
use eecs_k8s.Kiss.Job.{
  JobStep, Job, JobContext, JobEvent, state_patched, state_reported, get_box_name, is_critical,
  completed_state, has_completed, has_failed, patch_box, update_box_state, complete_job,
  reconcile_managed, reconcile_job,
}

-- The state that a job may write: of one that succeeded the label's, of one that failed `failed`.
abbrev pub IsOutcome : JobContext → Job → BoxState → Type 0
IsOutcome ctx job s =
    ((has_completed job ≡ true) × (completed_state ctx job ≡ some s))
    ⊎ ((has_completed job ≡ false) × ((has_failed job ≡ true) × (s ≡ Box.failed)))

abbrev pub IsJustified : JobContext → Job → JobEvent → Type 0
IsJustified ctx job (state_patched name s t) =
    (get_box_name job ≡ some name) × ((is_critical job ≡ false) × IsOutcome ctx job s)
IsJustified ctx job (state_reported s) = IsOutcome ctx job s

patch_box-IsJustified :
    (ctx : JobContext) (job : Job) (s : BoxState) (name : Option String)
    → get_box_name job ≡ name
    → is_critical job ≡ false
    → IsOutcome ctx job s
    → All (IsJustified ctx job) (patch_box ctx name s).1
unfolding patch_box
patch_box-IsJustified ctx job s none e k o = tt
patch_box-IsJustified ctx job s (some name) e k o = ground arith

update_box_state-IsJustified :
    (ctx : JobContext) (job : Job) (s : BoxState)
    → is_critical job ≡ false
    → IsOutcome ctx job s
    → All (IsJustified ctx job) (update_box_state ctx job s).1
unfolding update_box_state
update_box_state-IsJustified ctx job s k o =
    patch_box-IsJustified ctx job s (get_box_name job) refl k o

complete_job-IsJustified :
    (ctx : JobContext) (job : Job) (s : Option BoxState)
    → completed_state ctx job ≡ s
    → is_critical job ≡ false
    → has_completed job ≡ true
    → All (IsJustified ctx job) (complete_job ctx job s).1
unfolding complete_job
complete_job-IsJustified ctx job none e k c = tt
complete_job-IsJustified ctx job (some s) e k c =
    update_box_state-IsJustified ctx job s k (inl (c, e))

reconcile_managed-IsJustified :
    (ctx : JobContext) (job : Job) → All (IsJustified ctx job) (reconcile_managed ctx job).1
unfolding reconcile_managed
reconcile_managed-IsJustified ctx job =
    All-if (IsJustified ctx job) (is_critical job) (return await_change) _ (λ _. tt)
      λ k.
        All-if (IsJustified ctx job) (has_completed job)
          (complete_job ctx job (completed_state ctx job)) _
          (complete_job-IsJustified ctx job (completed_state ctx job) refl k)
          λ c.
            All-if (IsJustified ctx job) (has_failed job) (update_box_state ctx job Box.failed)
              (pure (requeue ctx.interval))
              (λ f. update_box_state-IsJustified ctx job Box.failed k (inr (c, (f, refl))))
              (λ _. tt)

-- A job writes a state to the box of its label only, if it is not critical; and the state is that of
-- its label where it succeeded, and `failed` where it failed and did not succeed.
pub reconcile_job-IsJustified :
    (ctx : JobContext) (job : Job) → All (IsJustified ctx job) (reconcile_job ctx job).1
unfolding reconcile_job
reconcile_job-IsJustified ctx job = managed (get_box_name job)
  where
    managed :
        (name : Option String)
        → All
            (IsJustified ctx job)
            (elim name as (λ _. JobStep Action) [
              | none ↦ return await_change
              | some n ↦ reconcile_managed ctx job
            ]).1
    managed none = tt
    managed (some name) = reconcile_managed-IsJustified ctx job
