-- ===== src/Kiss/Operator/Reconcile/Order.antt =====
-- The order of the calls of `reconcile`: first the job, then the state.
use eecs_k8s.Prelude.{
  String, Bool-cases, is_some, ◌&&◌, ◌≡◌, ◌≢◌, refl, ◌⊎◌, inl, inr, Option, none, some, List, [],
  ◌∷◌, ◌++◌, arith, All,
}
use eecs_k8s.Prelude.Flow.{pure, ok, returned, failed, ◌>>=◌}
use eecs_k8s.Kiss.Box.{
  BoxState, BoxGroupSpec, BoxCrd, running, as_task, cron, next, timeout, state_eq,
}
use eecs_k8s.Kiss.Operator.{
  requeue, Context, Event, Step, patched_spec, patched_status, spawned, refused, reported,
  old_state, apply_default_role, wait_access, is_timed_out, capture, bind_new_group,
}
use eecs_k8s.Kiss.Operator.Reconcile.{spawn_task, update_status, await, advance, reconcile}
use eecs_k8s.Kiss.Box.Equality.{state_ne}

-- No status is written.
abbrev pub WritesNone : Event → Type 0
WritesNone (patched_status _) = ⊥
WritesNone (spawned _) = Unit
WritesNone (patched_spec _) = Unit
WritesNone (refused _) = Unit
WritesNone (reported _) = Unit

-- `last` is the state for which the last job was spawned. A status that is written says `running`,
-- or says the state for which a job was spawned just before; and none is written after a job is
-- refused.
abbrev pub JobFirst : Option BoxState → List Event → Type 0
JobFirst last [] = Unit
JobFirst last (spawned job ∷ t) = JobFirst job.new_state t
JobFirst last (patched_status s ∷ t) =
    ((s.state ≡ running) ⊎ (last ≡ some s.state)) × JobFirst last t
JobFirst last (patched_spec _ ∷ t) = JobFirst last t
JobFirst last (refused _ ∷ t) = All WritesNone t × JobFirst last t
JobFirst last (reported _ ∷ t) = JobFirst last t

abbrev IsQuiet : Event → Type 0
IsQuiet (spawned _) = ⊥
IsQuiet (patched_status _) = ⊥
IsQuiet (refused _) = ⊥
IsQuiet _ = Unit

JobFirst-append :
    (last : Option BoxState) (t u : List Event)
    → All IsQuiet t
    → JobFirst last u
    → JobFirst last (t ++ u)
JobFirst-append last [] u q h = h
JobFirst-append last (spawned job ∷ t) u q h = absurd q.0
JobFirst-append last (patched_status s ∷ t) u q h = absurd q.0
JobFirst-append last (patched_spec _ ∷ t) u q h = JobFirst-append last t u q.1 h
JobFirst-append last (refused _ ∷ t) u q h = absurd q.0
JobFirst-append last (reported _ ∷ t) u q h = JobFirst-append last t u q.1 h

JobFirst-bind :
    {A B : Type 0} (m : Step A) (f : A → Step B)
    → JobFirst none m.1
    → ((a : A) → m.0 ≡ ok a → All IsQuiet m.1)
    → ((a : A) → m.0 ≡ ok a → JobFirst none (f a).1)
    → JobFirst none (m >>= f).1
JobFirst-bind (ok a, t) f h q k = JobFirst-append none t (f a).1 (q a refl) (k a refl)
JobFirst-bind (returned r, t) f h q k = h
JobFirst-bind (failed e, t) f h q k = h

module _ (ctx : Context) (b : BoxCrd) where
  apply_default_role-JobFirst : JobFirst none (apply_default_role ctx b).1
  unfolding apply_default_role
  apply_default_role-JobFirst = ground arith

  apply_default_role-IsQuiet :
      (a : Unit {0})
      → (apply_default_role ctx b).0 ≡ ok a
      → All IsQuiet (apply_default_role ctx b).1
  unfolding apply_default_role
  apply_default_role-IsQuiet a h = ground arith

  wait_access-JobFirst : JobFirst none (wait_access ctx b).1
  unfolding wait_access
  wait_access-JobFirst = ground arith

  wait_access-IsQuiet :
      (a : BoxState) → (wait_access ctx b).0 ≡ ok a → All IsQuiet (wait_access ctx b).1
  unfolding wait_access
  wait_access-IsQuiet a h = ground arith

  bind_new_group-JobFirst : (st : BoxState) → JobFirst none (bind_new_group ctx b st).1
  unfolding bind_new_group
  bind_new_group-JobFirst st = ground arith

  bind_new_group-IsQuiet :
      (st : BoxState) (g : Option BoxGroupSpec)
      → (bind_new_group ctx b st).0 ≡ ok g
      → All IsQuiet (bind_new_group ctx b st).1
  unfolding bind_new_group
  bind_new_group-IsQuiet st g h = ground arith

  -- The states without a task are never moved to.
  capture-as_task :
      (st : BoxState)
      → (wait_access ctx b).0 ≡ ok st
      → (old_state b ≡ capture ctx b st) ⊎ (as_task (capture ctx b st) ≢ none)
  unfolding wait_access capture is_timed_out next state_eq timeout as_task
  capture-as_task st h = ground arith

  await-JobFirst : (last : Option BoxState) → JobFirst last (await ctx).1
  unfolding await
  await-JobFirst last = ground arith

  spawn_and_wait :
      (st : BoxState) (g : Option BoxGroupSpec) (task : Option String)
      → JobFirst none (spawn_task ctx b st g task >>= λ _. await ctx).1
  unfolding spawn_task
  spawn_and_wait st g none = await-JobFirst none
  spawn_and_wait st g (some task) = ground (arith, await-JobFirst (some st))

  update_status-JobFirst :
      (st : BoxState)
      → JobFirst (some st) (update_status ctx b st >>= λ _. pure (requeue ctx.interval)).1
  unfolding update_status
  update_status-JobFirst st = ground arith

  spawn_and_move :
      (st : BoxState) (g : Option BoxGroupSpec) (task : Option String)
      → task ≢ none
      → JobFirst none
          (spawn_task ctx b st g task >>= λ _.
            update_status ctx b st >>= λ _. pure (requeue ctx.interval)).1
  unfolding spawn_task
  spawn_and_move st g none h = absurd (h refl)
  spawn_and_move st g (some task) h = ground (arith, update_status-JobFirst st)

  advance-JobFirst :
      (st : BoxState) (g : Option BoxGroupSpec)
      → (old_state b ≡ st) ⊎ (as_task st ≢ none)
      → JobFirst none (advance ctx b st g).1
  unfolding advance
  advance-JobFirst st g h = elim (Bool-cases (state_eq (old_state b) st)) [
    | inl same ↦ rw same (elim (Bool-cases (ctx.enable_cronjobs && is_some (cron st))) [
      | inl job ↦ rw job (spawn_and_wait st g (as_task st))
      | inr idle ↦ rw idle (await-JobFirst none)
    ])
    | inr moved ↦ rw moved (
        spawn_and_move st g (as_task st)
          (elim h [ inl e ↦ absurd (state_ne moved e) | inr task ↦ task ]))
  ]

-- A reconciliation writes a state other than `running` only after it has spawned the Ansible job
-- for that state, and writes no status at all after a job is refused.
pub reconcile-JobFirst : (ctx : Context) (b : BoxCrd) → JobFirst none (reconcile ctx b).1
unfolding reconcile
reconcile-JobFirst ctx b =
    JobFirst-bind (apply_default_role ctx b) _ (apply_default_role-JobFirst ctx b)
      (apply_default_role-IsQuiet ctx b)
      λ u _.
        JobFirst-bind (wait_access ctx b) _ (wait_access-JobFirst ctx b) (wait_access-IsQuiet ctx b)
          λ w e.
            let st = capture ctx b w in
            JobFirst-bind (bind_new_group ctx b st) _ (bind_new_group-JobFirst ctx b st)
              (bind_new_group-IsQuiet ctx b st)
              λ g _. advance-JobFirst ctx b st g (capture-as_task ctx b w e)
