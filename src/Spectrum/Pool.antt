-- ===== src/Spectrum/Pool.antt =====
-- crates/openark-spectrum-pool: the store of the claims (store.rs), the pool of the probes
-- (pool.rs) and the handlers over them (routes/service.rs). A write transaction of redb excludes
-- every other, so a handler and the callback of a probe are one step each.
pub mod Handler
pub mod Permits
pub mod Claims
pub mod Requested
pub mod Priority
use eecs_k8s.Prelude.{
  zero, suc, ℕ, ◌-◌, String, Bool, true, false, Option, none, some, List, [], ◌∷◌, ◌++◌, ◌==◌,
  unwrap_or, if◌then◌else◌,
}
use eecs_k8s.Prelude.Int.{ℤ}
use eecs_k8s.Spectrum.Schema.{
  CommitState, pending, preparing, running, as_raw, from_raw, default_state, PoolResource,
  PoolResourceProbe, PoolResourceLifecycle,
}
use eecs_k8s.Spectrum.Reference.{ObjectReference, to_string}
use eecs_k8s.Spectrum.Table.{Database}

-- A task that `commit` spawned, with what its callback captures.
pub record Task : Type 0 where
  pub key : String
  pub address : String
  pub probes : List PoolResourceProbe

abbrev pub read_state : Option ℕ → Option CommitState
read_state none = none
read_state (some raw) = from_raw raw

-- The probes in order, up to the first that fails. What a probe answers is a parameter.
unfoldable pub run_probes :
    (String → PoolResourceProbe → Bool) → String → List PoolResourceProbe → Bool
run_probes execute address [] = true
run_probes execute address (p ∷ ps) =
    if execute address p then run_probes execute address ps else false

abbrev pub probed_state : Bool → CommitState
probed_state true = running
probed_state false = pending

-- A task of the running ones, and the others.
unfoldable pub take_task : ℕ → List Task → Option (Task × List Task)
take_task n [] = none
take_task zero (task ∷ tasks) = some (task, tasks)
take_task (suc n) (task ∷ tasks) =
    let found = take_task n tasks in elim found [ none ↦ none | some r ↦ some (r.0, task ∷ r.1) ]

pub record PoolRequest : Type 0 where
  pub namespace : String
  pub resources : List String

pub record PoolCommitRequestItem : Type 0 where
  pub lifecycle : PoolResourceLifecycle
  pub name : String
  pub pool : PoolRequest
  pub priority : ℤ

unfoldable pub endpoint : String → String → ObjectReference
endpoint namespace name = record {
  group = "discovery.k8s.io";
  kind = "Endpoint";
  name = name;
  namespace = some namespace;
}

module _ (db : Database) where
  -- The tables of the store, the permits of the pool, and the tasks that run.
  pub record Store : Type 0 where
    pub claim : db.Table String
    pub ready : db.Table ℕ
    pub semaphore : ℕ
    pub tasks : List Task

  -- `StoreArgs::build` over an empty database.
  unfoldable pub build : ℕ → Store
  build max_pool = record { claim = db.empty; ready = db.empty; semaphore = max_pool; tasks = [] }

  -- `ReadGuard::get`
  unfoldable pub read : Store → ObjectReference → PoolResource String
  read st key = record {
    claim = db.get st.claim (to_string key);
    state = unwrap_or (read_state (db.get st.ready (to_string key))) default_state;
  }

  -- `Pool::commit`: with a permit left the probes start.
  unfoldable pub commit : Store → String → String → List PoolResourceProbe → CommitState × Store
  commit st key address probes = if st.semaphore == 0 then (pending, st) else (
    preparing,
    record st {
      semaphore = st.semaphore - 1;
      tasks = st.tasks ++ record { key = key; address = address; probes = probes } ∷ [];
    },
  )

  unfoldable pub put_state : Store → String → String → List PoolResourceProbe → CommitState × Store
  unfolding commit
  put_state st key address [] = (running, st)
  put_state st key address (p ∷ ps) = commit st key address (p ∷ ps)

  -- `WriteGuard::put`
  unfoldable pub put :
      Store → ObjectReference → String → String → PoolResourceLifecycle → CommitState × Store
  unfolding put_state
  put st key value address lifecycle =
      let (state, next) = put_state st (to_string key) address lifecycle.pre_start in
      (
        state,
        record next {
          claim = db.insert (to_string key) value next.claim;
          ready = db.insert (to_string key) (as_raw state) next.ready;
        },
      )

  -- The callback of a task.
  unfoldable pub on_completed : Store → String → Bool → Store
  on_completed st key is_completed = record st {
    ready = db.insert key (as_raw (probed_state is_completed)) st.ready;
  }

  -- A task ends: its probes are done, and its callback writes.
  unfoldable pub finish : (String → PoolResourceProbe → Bool) → ℕ → Store → Store
  unfolding take_task run_probes on_completed
  finish execute n st = elim (take_task n st.tasks) [
    | none ↦ st
    | some r ↦
        on_completed (record st { tasks = r.1 }) r.0.key (run_probes execute r.0.address r.0.probes)
  ]

  -- `try_handle`
  unfoldable pub try_handle : Store → String → List String → List (PoolResource String)
  unfolding endpoint read
  try_handle st namespace [] = []
  try_handle st namespace (name ∷ names) =
      read st (endpoint namespace name) ∷ try_handle st namespace names
