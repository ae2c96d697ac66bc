-- ===== src/DataPond/Controller/Keeps.antt =====
-- Looking for the ponds and calling them leaves the volumes of the controller, and what it has
-- allocated, as they are.
use eecs_k8s.Prelude.{String, List, [], ◌∷◌, Bool-cases, inl, inr}
use eecs_k8s.Prelude.Panic.{Result}
use eecs_k8s.Prelude.Dict.{Dict}
use eecs_k8s.DataPond.Types.{Status, AllocateVolumeRequest, VolumeOptions}
use eecs_k8s.DataPond.Server.{Server}
use eecs_k8s.DataPond.Binding.{Pond, VolumeBindingClaim}
use eecs_k8s.DataPond.Action.After.{returns, Always, After-bind, After-lift}
use eecs_k8s.DataPond.Candidates.{DeviceKey}
use eecs_k8s.Prelude.{ℕ}
use eecs_k8s.DataPond.Controller.{
  Cluster, System, Volume, server_at, list_ponds, fetch_ponds, is_fresh, set_ponds, call_pond,
  call_all, build,
}

-- A property of the controller's volumes and of what is allocated.
module _ (P : Dict String Volume → Dict DeviceKey ℕ → Type 0) where
  abbrev pub Holds : System → Type 0
  Holds sys = P sys.state.volumes sys.state.allocated

  module _ (cluster : Cluster) where
    server_at-keeps :
        (addr : String) (s : System) → Holds s → Always Holds (server_at cluster addr s)
    unfolding server_at
    server_at-keeps addr s h =
        After-bind {Q = λ _. Holds} _ (After-lift (cluster.transport addr) s (λ _ _. h) h)
          (λ _ t k. After-lift _ t (λ _ _. k) k)

    list_ponds-keeps :
        (addrs : List String) (ponds : Dict String Pond) (s : System)
        → Holds s
        → Always Holds (list_ponds cluster addrs ponds s)
    unfolding list_ponds
    list_ponds-keeps [] ponds s h = returns h
    list_ponds-keeps (addr ∷ addrs) ponds s h =
        After-bind {Q = λ _. Holds} _ (server_at-keeps addr s h)
          (λ server t k. list_ponds-keeps addrs _ t k)

    pub fetch_ponds-keeps : (s : System) → Holds s → Always Holds (fetch_ponds cluster s)
    unfolding fetch_ponds set_ponds
    fetch_ponds-keeps s h = elim (Bool-cases (is_fresh cluster s)) [
      | inl e ↦ rw e (returns h)
      | inr e ↦ rw e (
          After-bind {Q = λ _. Holds} _ (After-lift cluster.lookup s (λ _ _. h) h) (λ addrs t k.
            After-bind {Q = λ _. Holds} _ (list_ponds-keeps addrs [] t k) (λ ponds u l. returns l)))
    ]

    call_pond-keeps :
        (handler : AllocateVolumeRequest → Server → Result Status Server)
        (request : AllocateVolumeRequest) (addr : String) (s : System)
        → Holds s
        → Always Holds (call_pond cluster handler request addr s)
    unfolding call_pond
    call_pond-keeps handler request addr s h =
        After-bind {Q = λ _. Holds} _ (server_at-keeps addr s h) (λ server t k.
          After-bind {Q = λ _. Holds} _ (After-lift (handler request server) t (λ _ _. k) k)
            (λ next u l. returns l))

    pub call_all-keeps :
        (handler : AllocateVolumeRequest → Server → Result Status Server) (options : VolumeOptions)
        (bs : List VolumeBindingClaim) (s : System)
        → Holds s
        → Always Holds (call_all cluster handler options bs s)
    unfolding call_all
    call_all-keeps handler options [] s h = returns h
    call_all-keeps handler options (b ∷ bs) s h =
        After-bind {Q = λ _. Holds} _
          (call_pond-keeps handler (build cluster options b) b.pond.addr s h)
          (λ _ t k. call_all-keeps handler options bs t k)
