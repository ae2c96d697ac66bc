-- ===== src/DataPond/Server.antt =====
-- contrib/data-pond/src/pond.rs: a node's storage, and the programs that carve out its devices.
use Prim.Native.String.{◌++◌}
use eecs_k8s.Prelude.{String, Bool, true, false, Option, none, some, [], ◌∷◌, map}
use eecs_k8s.Prelude.Panic.{Result, ok, err, ◌>>=◌}
use eecs_k8s.Prelude.Dict.{string_eq, Dict, get, insert}
use eecs_k8s.DataPond.Types.{
  Status, Device, VolumeBindingMetadata, AllocateVolumeRequest, ListDevicesResponse,
  VolumeBindingContext, VolumeAllocateContext, VolumePublishContext, VolumeUnpublishContext,
  invalid_argument, internal, not_found,
}
use eecs_k8s.DataPond.Attributes.{show_layer}

pub record Server : Type 0 where
  pub node_id : String
  pub pod_ip : String
  pub bindings : Dict String VolumeBindingMetadata
  pub devices : Dict String Device

-- What is outside: the shell scripts of the layers, given their name and their input. An `err` is an
-- error of starting one or of writing to it; else the answer is whether it ended with success.
pub record Programs : Type 0 where
  pub allocate : String → VolumeAllocateContext → Result Status Bool
  pub publish : String → VolumePublishContext → Result Status Bool
  pub unpublish : String → VolumeUnpublishContext → Result Status Bool

unfoldable pub program : (layer kind : String) → String
program layer kind = "./" ++ layer ++ "-" ++ kind ++ ".sh"

abbrev pub check : Status → Bool → Result Status Bool
check failure true = ok true
check failure false = err failure

unfoldable pub node_topology : Server → Dict String String
node_topology s = ("kubernetes.io/hostname", s.node_id) ∷ []

unfoldable pub to_context : Server → Device → VolumeBindingMetadata → VolumeBindingContext
to_context s device metadata = record {
  addr = s.pod_ip;
  device = device;
  layer = device.layer;
  metadata = metadata;
  source = device.source;
}

unfoldable pub list_devices : Server → ListDevicesResponse
unfolding node_topology
list_devices s = record {
  id = s.node_id;
  bindings = map (λ e. e.1) s.bindings;
  devices = map (λ e. e.1) s.devices;
  topology = some (record { required = []; provides = node_topology s });
}

abbrev pub ok_or : {A : Type 0} → Option A → Status → Result Status A
ok_or none e = err e
ok_or (some a) e = ok a

module _ (programs : Programs) where
  -- `PondVolumeAllocate::execute`
  unfoldable pub execute : String → VolumeAllocateContext → Result Status Bool
  unfolding program show_layer
  execute kind c =
      programs.allocate (program (show_layer c.binding.device.layer) kind) c
      >>= check (internal "Failed to ")

  -- The state of the server is written last.
  unfoldable pub handle_pond_allocate :
      (kind : String) → AllocateVolumeRequest → Server → Result Status Server
  unfolding get insert to_context execute
  handle_pond_allocate kind r s = do
    options ← ok_or r.options (invalid_argument "Empty options")
    metadata ← ok_or r.binding (invalid_argument "Empty binding")
    device ← ok_or (get s.devices r.device_id) (not_found "No such device: ")
    let binding = to_context s device metadata
    _ ← execute kind (record { binding = binding; options = options })
    ok record s { bindings = insert metadata.volume_id binding.metadata s.bindings }

  unfoldable pub allocate_volume : AllocateVolumeRequest → Server → Result Status Server
  unfolding handle_pond_allocate
  allocate_volume = handle_pond_allocate "allocate"

  unfoldable pub deallocate_volume : AllocateVolumeRequest → Server → Result Status Server
  unfolding handle_pond_allocate
  deallocate_volume = handle_pond_allocate "deallocate"
