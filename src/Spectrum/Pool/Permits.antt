-- ===== src/Spectrum/Pool/Permits.antt =====
-- The permits of the pool.
use eecs_k8s.Prelude.{
  length, length-append, Bool-cases, ◌==◌, ◌-◌, ◌≤◌, refl, inr, inl, Bool, Option-cases, ℕ, ◌+◌,
  ◌≡◌, String, List, [], ◌∷◌, arith,
}
use eecs_k8s.Spectrum.Schema.{
  CommitState, pending, preparing, running, PoolResourceLifecycle, PoolResourceProbe,
}
use eecs_k8s.Spectrum.Reference.{ObjectReference, to_string}
use eecs_k8s.Spectrum.Table.{Database}
use eecs_k8s.Spectrum.Pool.{
  Task, take_task, PoolCommitRequestItem, finish, Store, commit, put, put_state,
}
use eecs_k8s.Spectrum.Pool.Handler.{collect_orders, try_handle_commit, put_all, Orders}

module _ (db : Database) where
  -- A permit is taken for each task that is added, and no task is lost.
  abbrev Spends : Store db → Store db → Type 0
  Spends st next =
      (length next.tasks + next.semaphore ≡ length st.tasks + st.semaphore)
      × (length st.tasks ≤ length next.tasks)

  commit-Spends :
      (st : Store db) (key address : String) (probes : List PoolResourceProbe)
      → Spends st (commit db st key address probes).1
  unfolding commit
  commit-Spends st key address probes = elim (Bool-cases (st.semaphore == 0)) [
    | inl e ↦ rw e (refl, omega arith)
    | inr e ↦
        let task : Task = record { key = key; address = address; probes = probes } in
        let n = length-append st.tasks (task ∷ []) in rw e (ground (arith, n), ground (arith, n))
  ]

  put-Spends :
      (st : Store db) (key : ObjectReference) (value address : String) (l : PoolResourceLifecycle)
      → Spends st (put db st key value address l).1
  unfolding put put_state
  put-Spends st key value address l = by_probes l.pre_start
    where
      by_probes :
          (probes : List PoolResourceProbe)
          → Spends st (put_state db st (to_string key) address probes).1
      by_probes [] = (refl, omega arith)
      by_probes (p ∷ ps) = commit-Spends st (to_string key) address (p ∷ ps)

  put_all-Spends : (os : Orders) (st : Store db) → Spends st (put_all db os st)
  unfolding put_all
  put_all-Spends [] st = (refl, omega arith)
  put_all-Spends ((k, v) ∷ os) st =
      by_state (put db st v.resource v.claim_name v.address v.lifecycle).0
        (put db st v.resource v.claim_name v.address v.lifecycle).1
        (put-Spends st v.resource v.claim_name v.address v.lifecycle)
        (put_all-Spends os (put db st v.resource v.claim_name v.address v.lifecycle).1)
    where
      by_state :
          (state : CommitState) (next : Store db)
          → Spends st next
          → Spends next (put_all db os next)
          → Spends st (elim state as (λ _. Store db) [
            | pending ↦ next
            | preparing ↦ put_all db os next
            | running ↦ put_all db os next
          ])
      by_state pending next h k = h
      by_state preparing next h k = (omega (arith, h.0, k.0), omega (arith, h.1, k.1))
      by_state running next h k = (omega (arith, h.0, k.0), omega (arith, h.1, k.1))

  finish-semaphore :
      (execute : String → PoolResourceProbe → Bool) (n : ℕ) (st : Store db)
      → (finish db execute n st).semaphore ≡ st.semaphore
  unfolding finish
  finish-semaphore execute n st = elim (Option-cases (take_task n st.tasks)) [
    | inl e ↦ rw (e, finish) refl
    | inr (r, e) ↦ rw (e, finish) refl
  ]

  commit-permits :
      (items : List PoolCommitRequestItem) (st : Store db)
      → Spends st (try_handle_commit db items st)
  unfolding try_handle_commit
  commit-permits items st = put_all-Spends (collect_orders db st 0 items []) st

  -- The tasks that a commit adds to those that run.
  abbrev pub added : List PoolCommitRequestItem → Store db → ℕ
  added items st = length (try_handle_commit db items st).tasks - length st.tasks

  -- A run of the service, with the number of tasks that it starts: commits, and the ends of tasks.
  pub data Run : Store db → ℕ → Store db → Type 0 where
    stop : (st : Store db) → Run st 0 st
    committed :
        (items : List PoolCommitRequestItem) (st last : Store db) (n : ℕ)
        → Run (try_handle_commit db items st) n last
        → Run st (added items st + n) last
    finished :
        (execute : String → PoolResourceProbe → Bool) (k : ℕ) (st last : Store db) (n : ℕ)
        → Run (finish db execute k st) n last
        → Run st n last

  -- Every task that a commit adds takes a permit, and no step returns one: over any run, the tasks
  -- that it adds and the permits that are left are the permits that there were.
  pub semaphore-Run :
      {st last : Store db} {n : ℕ} → Run st n last → n + last.semaphore ≡ st.semaphore
  semaphore-Run (stop st) = omega arith
  semaphore-Run (committed items st last n r) =
      let s = commit-permits items st in omega (arith, semaphore-Run r, s.0, s.1)
  semaphore-Run (finished execute k st last n r) =
      omega (arith, semaphore-Run r, finish-semaphore execute k st)
