-- ===== src/DataPond/Controller.antt =====
-- contrib/data-pond/src/controller.rs: the volumes of the cluster.

pub mod Provision
pub mod Handler
pub mod Create
pub mod Spec
pub mod Checked
pub mod Keeps
pub mod Found
pub mod Refines
pub mod Run
pub mod Exclusive
pub mod Modes
pub mod Effects
pub mod Accounts
use eecs_k8s.Prelude.{
  ℕ, ◌+◌, String, Bool, true, false, ltb, Option, none, some, List, [], ◌∷◌, map, unwrap_or,
  if◌then◌else◌,
}
use eecs_k8s.Prelude.Panic.{Result, ok, err, panic}
use eecs_k8s.Prelude.Dict.{Eq, string_eq, Dict, get, insert}
use eecs_k8s.DataPond.Types.{
  Status, DeviceTopology, VolumeOptions, AllocateVolumeRequest, ListDevicesResponse, unavailable,
}
use eecs_k8s.DataPond.Binding.{Pond, VolumeBindingClaim}
use eecs_k8s.DataPond.Candidates.{DeviceKey, insert_ordered}
use eecs_k8s.DataPond.Server.{Server, Programs, list_devices, allocate_volume, deallocate_volume}
use eecs_k8s.DataPond.Action.{Action, ◌>>=◌, ◌>>◌, pure, lift, gets, modify}
use Prim.Native.String.{compare}

pub record VolumeClaim : Type 0 where
  pub bindings : List VolumeBindingClaim
  pub options : VolumeOptions

-- The published nodes are a set: a map to nothing.
pub record Volume : Type 0 where
  pub claim : VolumeClaim
  pub published_node_ids : Dict String (Unit {0})
  pub readonly : Bool

-- Times are in nanoseconds.
pub record Ponds : Type 0 where
  pub created_at : ℕ
  pub data_of : Dict String Pond

pub record State : Type 0 where
  pub allocated : Dict DeviceKey ℕ
  pub ponds : Ponds
  pub volumes : Dict String Volume

unfoldable pub default_state : State
default_state = record {
  allocated = [];
  ponds = record { created_at = 0; data_of = [] };
  volumes = [];
}

-- The controller, and the ponds by their addresses.
pub record System : Type 0 where
  pub state : State
  pub servers : Dict String Server

abbrev pub set_state : State → System → System
set_state st sys = record sys { state = st }

-- What is outside: the answer of the resolver, which calls fail in transport, and the programs.
pub record Cluster : Type 0 where
  pub now : ℕ
  pub lookup : Result Status (List String)
  pub transport : String → Result Status (Unit {0})
  pub programs : Programs

unfoldable pub pond_ttl : ℕ
pond_ttl = 30_000_000_000

unfoldable pub to_pond : String → ListDevicesResponse → Pond
to_pond addr r = record {
  addr = addr;
  bindings = r.bindings;
  devices = r.devices;
  id = r.id;
  topology = unwrap_or r.topology (record { required = []; provides = [] });
}

module _ (cluster : Cluster) where
  unfoldable pub server_at : String → Action System Server
  unfolding get
  server_at addr = do
    lift (cluster.transport addr)
    found ← gets (λ sys. get sys.servers addr)
    lift (elim found [ none ↦ err (unavailable "Failed to connect to pond ") | some s ↦ ok s ])

  -- The last pond that answers with an id is kept.
  unfoldable pub list_ponds : List String → Dict String Pond → Action System (Dict String Pond)
  unfolding server_at list_devices to_pond insert_ordered
  list_ponds [] ponds = pure ponds
  list_ponds (addr ∷ addrs) ponds = do
    server ← server_at addr
    let pond = to_pond addr (list_devices server)
    list_ponds addrs (insert_ordered compare pond.id pond ponds)

  unfoldable pub set_ponds : Dict String Pond → System → System
  set_ponds ponds sys = record sys {
    state = record sys.state { ponds = record { created_at = cluster.now; data_of = ponds } };
  }

  unfoldable pub is_fresh : System → Bool
  unfolding pond_ttl
  is_fresh sys = ltb cluster.now (sys.state.ponds.created_at + pond_ttl)

  unfoldable pub fetch_ponds : Action System (Unit {0})
  unfolding list_ponds set_ponds is_fresh
  fetch_ponds = do
    cached ← gets is_fresh
    if cached
        then pure tt
        else (do addrs ← lift cluster.lookup; ponds ← list_ponds addrs []; modify (set_ponds ponds))

  -- A call of a pond: the server that answers is replaced.
  unfoldable pub call_pond :
      (AllocateVolumeRequest → Server → Result Status Server)
      → AllocateVolumeRequest
      → String
      → Action System (Unit {0})
  unfolding server_at insert
  call_pond handler request addr = do
    server ← server_at addr
    next ← lift (handler request server)
    modify (λ sys. record sys { servers = insert addr next sys.servers })

  unfoldable pub build : VolumeOptions → VolumeBindingClaim → AllocateVolumeRequest
  build options b = record {
    device_id = b.device.id;
    binding = some b.metadata;
    options = some options;
  }

  -- The calls of all the bindings, in order, up to the first that fails.
  unfoldable pub call_all :
      (AllocateVolumeRequest → Server → Result Status Server)
      → VolumeOptions
      → List VolumeBindingClaim
      → Action System (Unit {0})
  unfolding call_pond build
  call_all handler options [] = pure tt
  call_all handler options (b ∷ bs) = do
    call_pond handler (build options b) b.pond.addr
    call_all handler options bs

  -- `VolumeClaim::allocate`
  unfoldable pub allocate : VolumeClaim → Action System Volume
  unfolding call_all allocate_volume
  allocate claim = do
    call_all (allocate_volume cluster.programs) claim.options claim.bindings
    pure (record { claim = claim; published_node_ids = []; readonly = false })

  -- `VolumeClaim::deallocate`
  unfoldable pub deallocate : VolumeClaim → Action System (Unit {0})
  unfolding call_all deallocate_volume
  deallocate claim = call_all (deallocate_volume cluster.programs) claim.options claim.bindings
