-- ===== src/DataPond/Controller/Handler.antt =====
-- contrib/data-pond/src/controller.rs: the requests that a volume is published, unpublished and deleted by.
use eecs_k8s.Prelude.{
  ℕ, String, Bool, true, false, not, ◌&&◌, ◌||◌, Option, none, some, List, [], ◌∷◌, map, unwrap_or,
  if◌then◌else◌,
}
use eecs_k8s.Prelude.Panic.{Result, ok, err}
use eecs_k8s.Prelude.I64.{sub}
use eecs_k8s.Prelude.Dict.{string_eq, Dict, get, insert, remove}
use eecs_k8s.DataPond.Types.{
  Status, VolumeOptions, DeviceLayer, VolumeBindingContext, VolumePublishControllerContext, aborted,
  invalid_argument,
}
use eecs_k8s.DataPond.Options.{
  VolumeCapability, default_capability, volume_options, apply_volume_capability,
}
use eecs_k8s.DataPond.Attributes.{VolumeAttributes, parse}
use eecs_k8s.DataPond.Binding.{VolumeBindingClaim}
use eecs_k8s.DataPond.Candidates.{key_of, DeviceKey, device_key_eq}
use eecs_k8s.DataPond.Action.{Action, ◌>>=◌, ◌>>◌, pure, lift, gets, modify}
use eecs_k8s.DataPond.Controller.{
  Cluster, System, State, Volume, set_state, fetch_ponds, deallocate,
}
use eecs_k8s.DataPond.Controller.Provision.{get_volume_or_provision}

unfoldable pub is_empty {ℓ} : {A : Type ℓ} → List A → Bool
is_empty [] = true
is_empty (x ∷ xs) = false

unfoldable pub provisioned : String → VolumeOptions → Action System Volume
unfolding get_volume_or_provision
provisioned volume_id options = do
  st ← gets (λ sys. sys.state)
  found ← lift (get_volume_or_provision volume_id options st)
  modify (set_state found.1)
  pure found.0

abbrev pub put_volume : String → Volume → State → State
put_volume volume_id volume st = record st { volumes = insert volume_id volume st.volumes }

-- `VolumeOptions::default()`
unfoldable pub default_options : VolumeOptions
default_options = record {
  fs_type = none;
  mount_flags = [];
  mount_group = "";
  mount_shared = false;
}

-- `if let Some(allocated) = state.allocated.get_mut(&key)`
unfoldable pub release_entry : Option ℕ → VolumeBindingClaim → Dict DeviceKey ℕ → Dict DeviceKey ℕ
unfolding insert sub
release_entry none b allocated = allocated
release_entry (some n) b allocated = insert (key_of b) (sub n b.metadata.reserved) allocated

unfoldable pub release : List VolumeBindingClaim → Dict DeviceKey ℕ → Dict DeviceKey ℕ
unfolding get release_entry
release [] allocated = allocated
release (b ∷ bs) allocated = release bs (release_entry (get allocated (key_of b)) b allocated)

unfoldable pub remove_volume : String → Volume → State → State
unfolding release remove
remove_volume volume_id volume st = record st {
  allocated = release volume.claim.bindings st.allocated;
  volumes = remove volume_id st.volumes;
}

-- The ponds are called, then the volume is removed.
unfoldable pub delete_unpublished : Cluster → String → Volume → Action System (Unit {0})
unfolding deallocate remove_volume
delete_unpublished cluster volume_id volume = do
  deallocate cluster volume.claim
  modify (λ sys. set_state (remove_volume volume_id volume sys.state) sys)

unfoldable pub delete_volume : Cluster → String → Action System (Unit {0})
unfolding fetch_ponds provisioned default_options is_empty delete_unpublished
delete_volume cluster volume_id = do
  fetch_ponds cluster
  volume ← provisioned volume_id default_options
  if is_empty volume.published_node_ids
      then delete_unpublished cluster volume_id volume
      else lift (err (aborted "Published volume: "))

-- What the driver is configured with, and how it writes the context as texts.
pub record Driver : Type 0 where
  pub fs_type : String
  pub encode_bindings : List VolumeBindingContext → Option String
  pub encode_layer : DeviceLayer → Option String
  pub parse_i64 : String → Option ℕ

pub record PublishRequest : Type 0 where
  pub volume_id : String
  pub node_id : String
  pub volume_capability : Option VolumeCapability
  pub readonly : Bool
  pub volume_context : Dict String String

unfoldable pub binding_context : VolumeBindingClaim → VolumeBindingContext
binding_context b = record {
  addr = b.pond.addr;
  device = b.device;
  layer = b.device.layer;
  metadata = b.metadata;
  source = b.device.source;
}

-- `VolumePublishControllerContext::to_dict`
unfoldable pub to_dict :
    Driver → VolumePublishControllerContext → Result Status (Dict String String)
to_dict driver c = elim (driver.encode_bindings c.bindings) [
  | none ↦ err (invalid_argument "Failed to export bindings: ")
  | some bindings ↦ elim (driver.encode_layer c.layer) [
    | none ↦ err (invalid_argument "Failed to export layer: ")
    | some layer ↦ ok (
        ("data-pond.csi.ulagbulag.io/bindings", bindings)
        ∷ ("data-pond.csi.ulagbulag.io/layer", layer)
        ∷ [])
  ]
]

-- A volume that is not shared is published either to readers or to writers.
unfoldable pub check_mode : (readonly : Bool) → Volume → Result Status (Unit {0})
unfolding is_empty
check_mode readonly v =
    let has_published = not (is_empty v.published_node_ids) in
    if v.claim.options.mount_shared
    then ok tt
    else if not readonly && v.readonly && has_published
    then err (aborted "Already published volume AS ro: ")
    else if readonly && not v.readonly && has_published
    then err (aborted "Already published volume AS rw: ")
    else ok tt

unfoldable pub publish : (node_id : String) → (readonly : Bool) → Volume → Volume
unfolding insert
publish node_id readonly v = record v {
  published_node_ids = insert node_id tt v.published_node_ids;
  readonly = v.readonly || readonly;
}

unfoldable pub publish_options : Driver → PublishRequest → Result Status VolumeOptions
unfolding volume_options apply_volume_capability
publish_options driver r =
    apply_volume_capability (unwrap_or r.volume_capability default_capability)
      (volume_options driver.fs_type)

abbrev pub publish_context : VolumeAttributes → Volume → VolumePublishControllerContext
unfolding binding_context
publish_context attributes volume = record {
  bindings = map binding_context volume.claim.bindings;
  layer = attributes.layer;
}

unfoldable pub controller_publish_volume :
    Cluster → Driver → PublishRequest → Action System (Dict String String)
unfolding publish_options parse fetch_ponds provisioned check_mode to_dict publish
controller_publish_volume cluster driver r = do
  options ← lift (publish_options driver r)
  attributes ← lift (parse (r.volume_context ∷ []))
  fetch_ponds cluster
  volume ← provisioned r.volume_id options
  lift (check_mode r.readonly volume)
  context ← lift (to_dict driver (publish_context attributes volume))
  modify (λ sys.
      set_state (put_volume r.volume_id (publish r.node_id r.readonly volume) sys.state) sys)
  pure context

unfoldable pub unpublish : (node_id : String) → Volume → Volume
unfolding remove is_empty
unpublish node_id v =
    let ids = remove node_id v.published_node_ids in
    record v { published_node_ids = ids; readonly = v.readonly && not (is_empty ids) }

unfoldable pub unpublish_found : Option Volume → (volume_id node_id : String) → State → State
unfolding unpublish insert
unpublish_found none volume_id node_id st = st
unpublish_found (some volume) volume_id node_id st =
    put_volume volume_id (unpublish node_id volume) st

unfoldable pub unpublish_in : (volume_id node_id : String) → State → State
unfolding get unpublish_found
unpublish_in volume_id node_id st = unpublish_found (get st.volumes volume_id) volume_id node_id st

unfoldable pub controller_unpublish_volume :
    Cluster → (volume_id node_id : String) → Action System (Unit {0})
unfolding fetch_ponds unpublish_in
controller_unpublish_volume cluster volume_id node_id = do
  fetch_ponds cluster
  modify (λ sys. set_state (unpublish_in volume_id node_id sys.state) sys)
