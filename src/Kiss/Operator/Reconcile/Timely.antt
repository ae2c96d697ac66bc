-- ===== src/Kiss/Operator/Reconcile/Timely.antt =====
-- When `reconcile` moves a box, and the whole trace where every service answers.
use eecs_k8s.Prelude.{
  String, ℕ, ◌+◌, ◌≤◌, ◌<◌, ◌≡◌, ◌≢◌, refl, sym, ap, ◌∙◌, ◌⊎◌, inl, inr, false, not, ◌&&◌, Option,
  none, some, [], arith, All,
}
use eecs_k8s.Prelude.Flow.{ok, All-bind}
use eecs_k8s.Kiss.Box
use eecs_k8s.Kiss.Box.{
  BoxState, BoxGroupSpec, BoxStatus, BoxCrd, commissioning, ready, joining, generic_worker,
  external_worker, fallback_update, as_task, next, timeout, is_default, last_updated_or_created,
  state_eq, role_eq,
}
use eecs_k8s.Kiss.Operator.{
  Context, Event, requeue, patched_status, old_state, apply_default_role, wait_access, is_timed_out,
  capture, bind_new_group,
}
use eecs_k8s.Kiss.Operator.Reconcile.{spawn_task, await, advance, reconcile}
use eecs_k8s.Kiss.Operator.Reconcile.Moves.{
  IsWilling, IsAtWork, moved_by, job_of, group_before, moved_to, overdue_trace, joins_trace,
  advance_willing,
}
use eecs_k8s.Kiss.Operator.Reconcile.Calls.{advance-All}
use eecs_k8s.Kiss.Operator.Reconcile.Guards.{MayJoin}
use eecs_k8s.Kiss.Box.Equality.{state_ne}

-- The box has its role: no default is to be applied.
abbrev pub IsSettled : Context → BoxCrd → Type 0
IsSettled ctx b =
    (role_eq b.spec.group.role generic_worker
      && not (role_eq b.spec.group.role ctx.group_default_role))
    ≡ false

abbrev pub WritesNoStatus : Event → Type 0
WritesNoStatus (patched_status _) = ⊥
WritesNoStatus _ = Unit

module _ (ctx : Context) (b : BoxCrd) (settled : IsSettled ctx b) where
  apply_default_role_settled : apply_default_role ctx b ≡ (ok tt, [])
  unfolding apply_default_role
  apply_default_role_settled = ground arith

  wait_access_passes :
      (old_state b ≡ ready) ⊎ IsAtWork b → wait_access ctx b ≡ (ok (next (old_state b)), [])
  unfolding wait_access state_eq
  wait_access_passes h = ground arith

module _ (ctx : Context) (b : BoxCrd) where
  capture_overdue :
      (t : ℕ)
      → IsAtWork b
      → last_updated_or_created b ≡ some t
      → t + fallback_update < ctx.now
      → capture ctx b (next (old_state b)) ≡ Box.failed
  unfolding capture is_timed_out state_eq timeout
  capture_overdue t w e h = ground arith

  capture_in_time :
      (t : ℕ)
      → IsAtWork b
      → last_updated_or_created b ≡ some t
      → ctx.now ≤ t + fallback_update
      → capture ctx b (next (old_state b)) ≡ old_state b
  unfolding capture is_timed_out state_eq timeout next
  capture_in_time t w e h = ground arith

  capture_ready : old_state b ≡ ready → capture ctx b (next (old_state b)) ≡ joining
  unfolding capture is_timed_out state_eq timeout next
  capture_ready h = ground arith

  bind_new_group_other : (st : BoxState) → st ≢ joining → bind_new_group ctx b st ≡ (ok none, [])
  unfolding bind_new_group state_eq
  bind_new_group_other st h = ground arith

  bind_new_group_ready : MayJoin ctx b → bind_new_group ctx b joining ≡ (ok (some b.spec.group), [])
  unfolding bind_new_group state_eq
  bind_new_group_ready h = ground arith

  reconcile_moves :
      (st : BoxState) (g : Option BoxGroupSpec) (task : String)
      → IsWilling ctx
      → IsSettled ctx b
      → wait_access ctx b ≡ (ok (next (old_state b)), [])
      → capture ctx b (next (old_state b)) ≡ st
      → bind_new_group ctx b st ≡ (ok g, [])
      → state_eq (old_state b) st ≡ false
      → as_task st ≡ some task
      → reconcile ctx b ≡ (ok (requeue ctx.interval), moved_by ctx b st g task)
  unfolding reconcile
  reconcile_moves st g task willing settled waits captured bound moved h =
      rw (apply_default_role_settled ctx b settled, waits, captured, bound)
        (advance_willing ctx b willing st g task moved h)

-- A box that is commissioned or joins, and was last updated more than two hours ago, is failed:
-- its role being settled and the services willing, exactly the reset job is spawned, the state
-- `failed` is written with the bound group kept, and the update is reported.
pub reconcile_overdue :
    (ctx : Context) (b : BoxCrd) (t : ℕ)
    → IsWilling ctx
    → IsSettled ctx b
    → IsAtWork b
    → last_updated_or_created b ≡ some t
    → t + fallback_update < ctx.now
    → reconcile ctx b ≡ (
      ok (requeue ctx.interval),
      moved_to ctx b
          (job_of b Box.failed none "reset" (some "@hourly"))
          Box.failed
          (group_before b.status),
    )
unfolding as_task state_eq
reconcile_overdue ctx b t willing settled work e late =
    reconcile_moves ctx b Box.failed none "reset" willing settled
      (wait_access_passes ctx b settled (inr work)) (capture_overdue ctx b t work e late)
      (bind_new_group_other ctx b Box.failed (λ p. cc)) (ground arith) refl
    ∙ ap (λ es. (ok (requeue ctx.interval), es)) (overdue_trace ctx b work)

-- A ready box that may join its group does: its role being settled and the services willing,
-- exactly the join job is spawned, the state `joining` is written with the group bound, and the
-- update is reported.
pub reconcile_joins :
    (ctx : Context) (b : BoxCrd)
    → IsWilling ctx
    → IsSettled ctx b
    → MayJoin ctx b
    → reconcile ctx b ≡ (
      ok (requeue ctx.interval),
      moved_to ctx b (job_of b joining (some b.spec.group) "join" none) joining (some b.spec.group),
    )
unfolding as_task state_eq
reconcile_joins ctx b willing settled may =
    reconcile_moves ctx b joining (some b.spec.group) "join" willing settled
      (wait_access_passes ctx b settled (inl may.was_ready)) (capture_ready ctx b may.was_ready)
      (bind_new_group_ready ctx b may) (ground arith) refl
    ∙ ap (λ es. (ok (requeue ctx.interval), es)) (joins_trace ctx b may.was_ready)

module _ (ctx : Context) (b : BoxCrd) where
  apply_default_role-WritesNoStatus : All WritesNoStatus (apply_default_role ctx b).1
  unfolding apply_default_role
  apply_default_role-WritesNoStatus = ground arith

  wait_access-WritesNoStatus : All WritesNoStatus (wait_access ctx b).1
  unfolding wait_access
  wait_access-WritesNoStatus = ground arith

  wait_access-next :
      (st : BoxState) → IsAtWork b → (wait_access ctx b).0 ≡ ok st → st ≡ next (old_state b)
  unfolding wait_access state_eq
  wait_access-next st w h = ground arith

  bind_new_group-WritesNoStatus :
      (st : BoxState)
      → IsAtWork b
      → st ≡ old_state b
      → All WritesNoStatus (bind_new_group ctx b st).1
  unfolding bind_new_group state_eq
  bind_new_group-WritesNoStatus st w e = ground arith

  advance-WritesNoStatus :
      (st : BoxState) (g : Option BoxGroupSpec)
      → st ≡ old_state b
      → All WritesNoStatus (advance ctx b st g).1
  advance-WritesNoStatus st g e =
      advance-All WritesNoStatus ctx b st g (spawns (as_task st))
        (λ moved. absurd (state_ne moved (sym e))) (unfold await in ground arith)
    where
      spawns : (task : Option String) → All WritesNoStatus (spawn_task ctx b st g task).1
      spawns none = unfold spawn_task in tt
      spawns (some task) = unfold spawn_task in ground arith

-- Within the two hours a box that is commissioned or joins keeps its state, whatever the services
-- answer: no status is written.
pub reconcile_in_time :
    (ctx : Context) (b : BoxCrd) (t : ℕ)
    → IsAtWork b
    → last_updated_or_created b ≡ some t
    → ctx.now ≤ t + fallback_update
    → All WritesNoStatus (reconcile ctx b).1
unfolding reconcile
reconcile_in_time ctx b t work e soon =
    All-bind WritesNoStatus (apply_default_role ctx b) _ (apply_default_role-WritesNoStatus ctx b)
      λ u _. All-bind WritesNoStatus (wait_access ctx b) _ (wait_access-WritesNoStatus ctx b) λ w p.
        let stays = kept w p in
        All-bind WritesNoStatus (bind_new_group ctx b (capture ctx b w)) _
          (bind_new_group-WritesNoStatus ctx b (capture ctx b w) work stays)
          λ g _. advance-WritesNoStatus ctx b (capture ctx b w) g stays
  where
    kept : (w : BoxState) → (wait_access ctx b).0 ≡ ok w → capture ctx b w ≡ old_state b
    kept w p = rw (wait_access-next ctx b w work p) (capture_in_time ctx b t work e soon)
