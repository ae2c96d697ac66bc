-- ===== src/Kiss/Operator/Reconcile/Calls.antt =====
-- What holds of every call of the parts of `advance` holds of every call of the whole.
use eecs_k8s.Prelude.{◌≡◌, inl, inr, false, Option, ◌&&◌, All, Bool-cases, is_some}
use eecs_k8s.Prelude.Flow.{All-bind}
use eecs_k8s.Kiss.Box.{BoxState, BoxGroupSpec, BoxCrd, as_task, cron, state_eq}
use eecs_k8s.Kiss.Operator.{Context, Event, old_state}
use eecs_k8s.Kiss.Operator.Reconcile.{spawn_task, update_status, await, advance}

pub advance-All :
    (P : Event → Type 0) (ctx : Context) (b : BoxCrd) (st : BoxState) (g : Option BoxGroupSpec)
    → All P (spawn_task ctx b st g (as_task st)).1
    → (state_eq (old_state b) st ≡ false → All P (update_status ctx b st).1)
    → All P (await ctx).1
    → All P (advance ctx b st g).1
unfolding advance
advance-All P ctx b st g hs hu ha = elim (Bool-cases (state_eq (old_state b) st)) [
  | inl same ↦ rw same (elim (Bool-cases (ctx.enable_cronjobs && is_some (cron st))) [
    | inl job ↦ rw job (All-bind P (spawn_task ctx b st g (as_task st)) _ hs (λ _ _. ha))
    | inr idle ↦ rw idle ha
  ])
  | inr moved ↦ rw moved (
      All-bind P (spawn_task ctx b st g (as_task st)) _ hs
        λ _ _. All-bind P (update_status ctx b st) _ (hu moved) (λ _ _. tt))
]
