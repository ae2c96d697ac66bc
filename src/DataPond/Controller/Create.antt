-- ===== src/DataPond/Controller/Create.antt =====
-- contrib/data-pond/src/controller.rs, `create_volume`.
pub mod Promise
pub mod Begin
use Prim.Native.String.{◌++◌ as append}
use eecs_k8s.Prelude.{
  ℕ, suc, ◌%◌, String, Bool, true, false, Option, none, some, List, [], ◌∷◌, length, unwrap_or,
  if◌then◌else◌,
}
use eecs_k8s.Prelude.Panic.{Result, ok, err}
use eecs_k8s.Prelude.I64.{add, mul, le}
use eecs_k8s.Prelude.Dict.{string_eq, Dict, get, insert, extend}
use eecs_k8s.DataPond.Types.{Status, margin, invalid_argument, unimplemented, resource_exhausted}
use eecs_k8s.DataPond.Options.{VolumeCapability, volume_options, apply_volume_capabilities}
use eecs_k8s.DataPond.Attributes.{VolumeAttributes, parse, export}
use eecs_k8s.DataPond.Binding.{VolumeBindingClaim}
use eecs_k8s.DataPond.Candidates.{
  key_of, DeviceKey, device_key_eq, AccessibilityRequirements, available_bindings,
}
use eecs_k8s.DataPond.Picking.{pick}
use eecs_k8s.DataPond.Action.{Action, ◌>>=◌, ◌>>◌, pure, lift, gets, modify}
use eecs_k8s.DataPond.Controller.{
  VolumeOptions, Cluster, System, State, Volume, set_state, fetch_ponds, allocate,
}
use eecs_k8s.DataPond.Controller.Handler.{Driver, is_empty, put_volume}

-- Of the content source only whether there is one is read.
pub record CreateRequest : Type 0 where
  pub name : String
  pub required_bytes : Option ℕ
  pub volume_capabilities : List VolumeCapability
  pub parameters : Dict String String
  pub has_content_source : Bool
  pub accessibility_requirements : Option AccessibilityRequirements
  pub mutable_parameters : Dict String String

pub record CreatedVolume : Type 0 where
  pub capacity_bytes : ℕ
  pub volume_id : String
  pub volume_context : Dict String String
  pub accessible_topology : List (Dict String String)

-- `s.parse().ok()`, or 1, and at least 1
unfoldable pub num_replicas_of : Option ℕ → ℕ
unfolding le
num_replicas_of none = 1
num_replicas_of (some n) = if le 1 n then n else 1

unfoldable pub replicas : Driver → VolumeAttributes → ℕ
unfolding num_replicas_of
replicas driver a = elim a.num_replicas [
  | none ↦ num_replicas_of none
  | some text ↦ num_replicas_of (driver.parse_i64 text)
]

-- The place of each binding, from a first index, in `i32`.
unfoldable pub index_from : (index total : ℕ) → List VolumeBindingClaim → List VolumeBindingClaim
index_from index total [] = []
index_from index total (b ∷ bs) =
    record b {
      metadata = record b.metadata {
        index_bindings = index % 4_294_967_296;
        total_bindings = total % 4_294_967_296;
      };
    }
    ∷ index_from (suc index) total bs

-- The bindings of a volume, or none where the devices do not have the capacity.
unfoldable pub place :
    (num_replicas required : ℕ) → List VolumeBindingClaim → Result Status (List VolumeBindingClaim)
unfolding pick mul le index_from
place num_replicas required available =
    let picked = pick num_replicas required 0 available in
    if le (mul required num_replicas) picked.1
    then ok (index_from 0 (length picked.0) picked.0)
    else err (resource_exhausted "Out Of Capacity: expected ")

unfoldable pub topology_segments : List VolumeBindingClaim → Dict String String → Dict String String
unfolding extend
topology_segments [] acc = acc
topology_segments (b ∷ bs) acc = topology_segments bs (extend acc b.pond.topology.provides)

unfoldable pub charge : List VolumeBindingClaim → Dict DeviceKey ℕ → Dict DeviceKey ℕ
unfolding get insert add
charge [] allocated = allocated
charge (b ∷ bs) allocated =
    charge bs (
      insert (key_of b) (add (unwrap_or (get allocated (key_of b)) 0) b.metadata.reserved)
        allocated)

unfoldable pub store_volume : String → Volume → State → State
unfolding charge insert
store_volume volume_id volume st =
    put_volume volume_id volume
      (record st { allocated = charge volume.claim.bindings st.allocated })

unfoldable pub check_source : Bool → Result Status (Unit {0})
check_source true = err (unimplemented "create_volume::volume_content_source is not supported yet")
check_source false = ok tt

abbrev pub required_of : Option ℕ → Result Status ℕ
required_of none = err (invalid_argument "missing capacity")
required_of (some n) = ok n

unfoldable pub volume_id_of : String → String
volume_id_of name = append "pond_" name

unfoldable pub created :
    (required_bytes : ℕ)
    → (volume_id : String) → VolumeAttributes
    → List VolumeBindingClaim
    → CreatedVolume
unfolding export topology_segments is_empty
created required_bytes volume_id attributes bindings =
    let segments = topology_segments bindings [] in
    record {
      capacity_bytes = required_bytes;
      volume_id = volume_id;
      volume_context = export attributes;
      accessible_topology = if is_empty segments then [] else segments ∷ [];
    }

unfoldable pub create_options : Driver → CreateRequest → Result Status VolumeOptions
unfolding volume_options apply_volume_capabilities
create_options driver r =
    apply_volume_capabilities r.volume_capabilities (volume_options driver.fs_type)

unfoldable pub place_in :
    Driver
    → CreateRequest
    → (required_bytes : ℕ) → VolumeAttributes
    → State
    → Result Status (List VolumeBindingClaim)
unfolding available_bindings replicas place add margin volume_id_of
place_in driver r required_bytes attributes st =
    place (replicas driver attributes) (add required_bytes (margin attributes.layer)) (
      available_bindings r.accessibility_requirements (volume_id_of r.name) st.allocated
        st.ponds.data_of)

unfoldable pub create_volume : Cluster → Driver → CreateRequest → Action System CreatedVolume
unfolding volume_id_of create_options parse check_source fetch_ponds place_in allocate store_volume
    created
create_volume cluster driver r = do
  let volume_id = volume_id_of r.name
  required_bytes ← lift (required_of r.required_bytes)
  options ← lift (create_options driver r)
  attributes ← lift (parse (r.parameters ∷ r.mutable_parameters ∷ []))
  lift (check_source r.has_content_source)
  fetch_ponds cluster
  st ← gets (λ sys. sys.state)
  bindings ← lift (place_in driver r required_bytes attributes st)
  volume ← allocate cluster (record { bindings = bindings; options = options })
  modify (λ sys. set_state (store_volume volume_id volume sys.state) sys)
  pure (created required_bytes volume_id attributes bindings)
