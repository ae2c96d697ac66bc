-- ===== src/DataPond/Context.antt =====
-- contrib/data-pond/src/volume.rs: the context that the controller hands to a node, read from texts.
use eecs_k8s.Prelude.{String, Option, List, unwrap_or}
use eecs_k8s.Prelude.Panic.{Result, ok, ◌>>=◌}
use eecs_k8s.Prelude.Dict.{string_eq, Dict, get}
use eecs_k8s.DataPond.Types.{
  Status, DeviceLayer, VolumeOptions, VolumeBindingContext, VolumePublishControllerContext,
  invalid_argument, not_found,
}
use eecs_k8s.DataPond.Options.{
  VolumeCapability, default_capability, volume_options, apply_volume_capability,
}
use eecs_k8s.DataPond.Server.{ok_or}

-- What a node is configured with, and how it reads the context from texts.
pub record NodeDriver : Type 0 where
  pub fs_type : String
  pub decode_bindings : String → Option (List VolumeBindingContext)
  pub decode_layer : String → Option DeviceLayer

-- `parse` of the context that the controller wrote.
unfoldable pub parse_context :
    NodeDriver → Dict String String → Result Status VolumePublishControllerContext
unfolding get
parse_context driver d = do
  text ← ok_or (get d "data-pond.csi.ulagbulag.io/bindings") (not_found "Empty bindings")
  bindings ← ok_or (driver.decode_bindings text) (invalid_argument "Invalid bindings: ")
  name ← ok_or (get d "data-pond.csi.ulagbulag.io/layer") (not_found "Empty layer")
  layer ← ok_or (driver.decode_layer name) (invalid_argument "Invalid layer: ")
  ok (record { bindings = bindings; layer = layer })

unfoldable pub node_options : NodeDriver → Option VolumeCapability → Result Status VolumeOptions
unfolding volume_options apply_volume_capability
node_options driver capability =
    apply_volume_capability (unwrap_or capability default_capability)
      (volume_options driver.fs_type)
