-- ===== src/Examples/Pool.antt =====
-- A pool with one permit (crates/openark-spectrum-pool).
use eecs_k8s.Prelude.{arith, Option, List, String, ◌+◌, ◌≡◌, refl, true, false, none, some, [], ◌∷◌}
use eecs_k8s.Prelude.Int.{pos}
use eecs_k8s.Spectrum.Schema.{
  PoolResource, PoolResourceLifecycle, PoolResourceProbe, http, get, pending, preparing, running,
}
use eecs_k8s.Spectrum.Reference.{to_string}
use eecs_k8s.Spectrum.Table.{Database, DatabaseLaws}
use eecs_k8s.Prelude.{str_eq, eq_refl, eq_iff, if◌then◌else◌, refl}
use eecs_k8s.Spectrum.Pool.{Store, build, put, read, finish, endpoint, PoolCommitRequestItem}
use eecs_k8s.Spectrum.Pool.Handler.{try_handle_commit}
use eecs_k8s.Prelude.Int.{negsuc}
use eecs_k8s.Spectrum.Pool.Permits.{stop, committed, finished, added, semaphore-Run}
use eecs_k8s.Spectrum.Pool.Claims.{read-put, commit-keeps, claimed}

abbrev lookup : {V : Type 0} → List (String × V) → String → Option V
lookup [] key = none
lookup ((k, v) ∷ t) key = if str_eq k key then some v else lookup t key

abbrev store : {V : Type 0} → String → V → List (String × V) → List (String × V)
store key v [] = (key, v) ∷ []
store key v ((k, w) ∷ t) = if str_eq k key then (k, v) ∷ t else (k, w) ∷ store key v t

module _ {V : Type 0} where
  lookup-store :
      (key : String) (v : V) (t : List (String × V)) → lookup (store key v t) key ≡ some v
  lookup-store key v [] = ground (arith, eq_refl key)
  lookup-store key v ((k, w) ∷ t) = ground (arith, lookup-store key v t)

  lookup-store_ne :
      (key other : String) (v : V) (t : List (String × V))
      → str_eq key other ≡ false
      → lookup (store key v t) other ≡ lookup t other
  lookup-store_ne key other v [] h = rw h
  lookup-store_ne key other v ((k, w) ∷ t) h =
      ground (arith, lookup-store_ne key other v t h, eq_iff k key)

-- A database in memory.
abbrev memory : Database
memory = record { Table = λ V. List (String × V); empty = []; get = lookup; insert = store }

memory_laws : DatabaseLaws memory
memory_laws = record {
  get-empty = λ key. refl;
  get-insert = lookup-store;
  get-insert_ne = lookup-store_ne;
}

abbrev probe : PoolResourceProbe
probe = http (record { method = get; path = "/ready"; port = 80; secure = false; body = none })

abbrev probed : PoolResourceLifecycle
probed = record { pre_start = probe ∷ [] }

abbrev request : PoolCommitRequestItem
request = record {
  lifecycle = probed;
  name = "a";
  pool = record { namespace = "lab"; resources = "n1" ∷ "n2" ∷ [] };
  priority = pos 0;
}

abbrev first : Store memory
first = try_handle_commit memory (request ∷ []) (build memory 1)

abbrev last : Store memory
last = finish memory (λ address p. true) 0 first

-- The first resource takes the permit, and the second stays pending, also when the first is done.
first_state : read memory first (endpoint "lab" "n1") ≡ claimed "a" preparing
unfolding read try_handle_commit build to_string eecs_k8s.Spectrum.Schema.from_raw
    eecs_k8s.Spectrum.Schema.as_raw
first_state = refl

second_state : read memory last (endpoint "lab" "n2") ≡ claimed "a" pending
unfolding read finish try_handle_commit build to_string eecs_k8s.Spectrum.Schema.from_raw
    eecs_k8s.Spectrum.Schema.as_raw
second_state = refl

first_done : read memory last (endpoint "lab" "n1") ≡ claimed "a" running
unfolding read finish try_handle_commit build to_string eecs_k8s.Spectrum.Schema.from_raw
    eecs_k8s.Spectrum.Schema.as_raw
first_done = refl

second_claim : lookup last.claim (to_string (endpoint "lab" "n2")) ≡ some "a"
unfolding finish try_handle_commit build to_string
second_claim = refl

read-put_example :
    read memory
      (put memory (build memory 1) (endpoint "lab" "n1") "a" "n1" probed).1
      (endpoint "lab" "n1")
    ≡ claimed "a" (put memory (build memory 1) (endpoint "lab" "n1") "a" "n1" probed).0
read-put_example =
    read-put memory memory_laws (build memory 1) (endpoint "lab" "n1") "a" "n1" probed

semaphore-Run_example :
    (added memory (request ∷ []) (build memory 1) + 0) + last.semaphore ≡ (build memory 1).semaphore
semaphore-Run_example = semaphore-Run memory (
    committed (request ∷ []) (build memory 1) last 0
      (finished (λ address p. true) 0 first last 0 (stop last)))

commit-keeps_example :
    (lookup (try_handle_commit memory (request ∷ []) last).claim (to_string (endpoint "lab" "n2"))
      ≡ lookup last.claim (to_string (endpoint "lab" "n2")))
    × (lookup (try_handle_commit memory (request ∷ []) last).ready (to_string (endpoint "lab" "n2"))
        ≡ lookup last.ready (to_string (endpoint "lab" "n2")))
commit-keeps_example =
    commit-keeps memory memory_laws (to_string (endpoint "lab" "n2")) (request ∷ []) last
      (((λ _. second_claim), ((λ _. second_claim), tt)), tt)

abbrev urgent : PoolCommitRequestItem
urgent = record request { name = "b"; priority = negsuc 0 }
