-- ===== src/Kiss/Operator/Reconcile/Guards.antt =====
-- What a status that `reconcile` writes holds, and when a box may join.
use eecs_k8s.Prelude.{String, ◌≡◌, ◌≢◌, ◌⊎◌, true, false, not, ◌&&◌, Option, some, arith, All}
use eecs_k8s.Prelude.Flow.{ok, All-bind}
use eecs_k8s.Kiss.Box.{
  BoxState, BoxGroupSpec, BoxStatus, BoxCrd, as_task, ready, joining, external_worker,
  generic_worker, next, timeout, is_default, state_eq, role_eq,
}
use eecs_k8s.Kiss.Operator.{
  Context, Event, patched_status, access, bind_group, old_state, apply_default_role, wait_access,
  is_timed_out, capture, bind_new_group, is_bind_group_updated,
}
use eecs_k8s.Kiss.Operator.Reconcile.{spawn_task, update_status, await, advance, reconcile}
use eecs_k8s.Kiss.Operator.Reconcile.Calls.{advance-All}
use eecs_k8s.Kiss.Box.Equality.{state_ne}

-- A box that starts to join was ready, is no external worker, is no worker of a disabled default
-- cluster, and was not bound to its group.
pub record MayJoin (ctx : Context) (b : BoxCrd) : Type 0 where
  pub was_ready : old_state b ≡ ready
  pub internal : role_eq b.spec.group.role external_worker ≡ false
  pub enabled :
      (not ctx.group_enable_default_cluster
        && (is_default b.spec.group && role_eq b.spec.group.role generic_worker))
      ≡ false
  pub unbound : is_bind_group_updated b ≡ true

-- The access methods stay; the group is bound on joining and stays otherwise.
pub record IsFaithful (ctx : Context) (b : BoxCrd) (s : BoxStatus) : Type 0 where
  pub same_access : s.access ≡ access b
  pub binds : s.state ≡ joining → s.bind_group ≡ some b.spec.group
  pub keeps_group : s.state ≢ joining → s.bind_group ≡ bind_group b
  pub joins : s.state ≡ joining → MayJoin ctx b
  pub stamped : s.last_updated ≡ ctx.later

abbrev pub Faithful : Context → BoxCrd → Event → Type 0
Faithful ctx b (patched_status s) = IsFaithful ctx b s
Faithful ctx b _ = Unit

module _ (ctx : Context) (b : BoxCrd) where
  apply_default_role-Faithful : All (Faithful ctx b) (apply_default_role ctx b).1
  unfolding apply_default_role
  apply_default_role-Faithful = ground arith

  wait_access-Faithful : All (Faithful ctx b) (wait_access ctx b).1
  unfolding wait_access
  wait_access-Faithful = ground arith

  bind_new_group-Faithful : (st : BoxState) → All (Faithful ctx b) (bind_new_group ctx b st).1
  unfolding bind_new_group state_eq
  bind_new_group-Faithful st = ground arith

  -- The state that the handler goes on with is `joining` only from `ready`, or where it was.
  capture_joining :
      (st : BoxState)
      → (wait_access ctx b).0 ≡ ok st
      → capture ctx b st ≡ joining
      → (old_state b ≡ ready) ⊎ (old_state b ≡ joining)
  unfolding wait_access capture is_timed_out next state_eq timeout
  capture_joining st h e = ground arith

  bind_new_group-MayJoin :
      (st : BoxState) (g : Option BoxGroupSpec)
      → (bind_new_group ctx b st).0 ≡ ok g
      → old_state b ≡ ready
      → st ≡ joining
      → MayJoin ctx b
  unfolding bind_new_group state_eq
  bind_new_group-MayJoin st g h r e = ground arith

  spawn_task-Faithful :
      (st : BoxState) (g : Option BoxGroupSpec) (task : Option String)
      → All (Faithful ctx b) (spawn_task ctx b st g task).1
  unfolding spawn_task
  spawn_task-Faithful st g task = ground arith

  await-Faithful : All (Faithful ctx b) (await ctx).1
  unfolding await
  await-Faithful = ground arith

  update_status-Faithful :
      (st : BoxState)
      → (st ≡ joining → MayJoin ctx b)
      → All (Faithful ctx b) (update_status ctx b st).1
  unfolding update_status state_eq
  update_status-Faithful st h = ground arith

  advance-Faithful :
      (st : BoxState) (g : Option BoxGroupSpec)
      → (old_state b ≢ st → st ≡ joining → MayJoin ctx b)
      → All (Faithful ctx b) (advance ctx b st g).1
  advance-Faithful st g h =
      advance-All (Faithful ctx b) ctx b st g (spawn_task-Faithful st g (as_task st))
        (λ moved. update_status-Faithful st (λ e. h (state_ne moved) e)) await-Faithful

-- Every status that a reconciliation writes keeps the access methods, carries the time of the
-- write, binds the box's own group exactly on joining and keeps the bound group otherwise; and it
-- says `joining` only for a box that was ready, is internal, is enabled and was not yet bound.
pub reconcile-Faithful : (ctx : Context) (b : BoxCrd) → All (Faithful ctx b) (reconcile ctx b).1
unfolding reconcile
reconcile-Faithful ctx b =
    All-bind (Faithful ctx b) (apply_default_role ctx b) _ (apply_default_role-Faithful ctx b)
      λ u _. All-bind (Faithful ctx b) (wait_access ctx b) _ (wait_access-Faithful ctx b) λ w e.
        All-bind (Faithful ctx b) (bind_new_group ctx b (capture ctx b w)) _
          (bind_new_group-Faithful ctx b (capture ctx b w))
          λ g f. advance-Faithful ctx b (capture ctx b w) g (guard w e g f)
  where
    guard :
        (w : BoxState)
        → (wait_access ctx b).0 ≡ ok w
        → (g : Option BoxGroupSpec) → (bind_new_group ctx b (capture ctx b w)).0 ≡ ok g
        → old_state b ≢ capture ctx b w
        → capture ctx b w ≡ joining
        → MayJoin ctx b
    guard w e g f moved j =
        ground
          (arith, capture_joining ctx b w e j, bind_new_group-MayJoin ctx b (capture ctx b w) g f)
