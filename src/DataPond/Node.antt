-- ===== src/DataPond/Node.antt =====
-- contrib/data-pond/src/node.rs: a volume is staged and published on a node by the programs of its layer.
pub mod Belongs
use eecs_k8s.DataPond.Context.{NodeDriver, parse_context, node_options}
use eecs_k8s.Prelude.{
  String, str_eq, ◌≡◌, refl, Bool, true, false, ◌&&◌, Option, none, some, List, [], ◌∷◌, All,
  unwrap_or, Bool-cases, inl, inr, if◌then◌else◌,
}
use eecs_k8s.Prelude.Panic.{Result}
use eecs_k8s.Prelude.Panic as Panic
use eecs_k8s.Prelude.Flow.{Flow, ◌>>=◌, ◌>>◌, pure, call, fail, All-bind, All-if}
use eecs_k8s.Prelude.Dict.{Eq, string_eq, Dict, get}
use eecs_k8s.DataPond.Types.{
  Status, DeviceLayer, VolumeOptions, VolumeBindingContext, VolumeAllocateContext,
  VolumePublishControllerContext, VolumePublishContext, VolumeUnpublishContext, internal,
  invalid_argument, not_found,
}
use eecs_k8s.DataPond.Options.{
  VolumeCapability, default_capability, volume_options, apply_volume_capability,
}
use eecs_k8s.DataPond.Attributes.{show_layer}
use eecs_k8s.DataPond.Server.{Programs, program, check, execute}

pub record NodePublishVolumeRequest : Type 0 where
  pub publish_context : Dict String String
  pub read_only : Bool
  pub staging_target_path : String
  pub target_path : Option String
  pub volume_capability : Option VolumeCapability
  pub volume_id : String

pub record NodeUnpublishVolumeRequest : Type 0 where
  pub target_path : String
  pub volume_id : String

-- The programs that ended with success.
pub data Run : Type 0 where
  allocated : VolumeAllocateContext → Run
  published : VolumePublishContext → Run
  unpublished : VolumeUnpublishContext → Run

abbrev pub NodeFlow : Type 0 → Type 0
NodeFlow A = Flow Run Status Unit A

abbrev pub attempt : {A : Type 0} → Result Status A → NodeFlow A
attempt (Panic.ok a) = pure a
attempt (Panic.err e) = fail e
attempt Panic.panic = fail (internal "panic")

abbrev pub error_of : {A : Type 0} → Result Status A → Option Status
error_of (Panic.ok a) = none
error_of (Panic.err e) = some e
error_of Panic.panic = some (internal "panic")

-- The status of a program that was started and ended.
abbrev pub outcome : Status → Result Status Bool → Option Status
outcome e (Panic.ok true) = none
outcome e (Panic.ok false) = some e
outcome e (Panic.err f) = some f
outcome e Panic.panic = some (internal "panic")

pub record StageRequest : Type 0 where
  pub volume_id : String
  pub publish_context : Dict String String
  pub staging_target_path : String
  pub volume_capability : Option VolumeCapability

pub record PublishRequest : Type 0 where
  pub volume_id : String
  pub publish_context : Dict String String
  pub staging_target_path : String
  pub target_path : String
  pub volume_capability : Option VolumeCapability
  pub readonly : Bool

unfoldable pub from_stage : StageRequest → NodePublishVolumeRequest
from_stage r = record {
  publish_context = r.publish_context;
  read_only = false;
  staging_target_path = r.staging_target_path;
  target_path = none;
  volume_capability = r.volume_capability;
  volume_id = r.volume_id;
}

unfoldable pub from_publish : PublishRequest → NodePublishVolumeRequest
from_publish r = record {
  publish_context = r.publish_context;
  read_only = r.readonly;
  staging_target_path = r.staging_target_path;
  target_path = some r.target_path;
  volume_capability = r.volume_capability;
  volume_id = r.volume_id;
}

module _ (programs : Programs) (driver : NodeDriver) where
  unfoldable pub allocate_binding :
      VolumeOptions → String → VolumeBindingContext → NodeFlow (Unit {0})
  unfolding execute
  allocate_binding options volume_id b =
      if str_eq b.metadata.device_id b.device.id
      then (if str_eq b.metadata.volume_id volume_id
          then (let context : VolumeAllocateContext = record { binding = b; options = options } in
              call (allocated context) (error_of (execute programs "allocate" context)))
          else fail (internal "Invalid device volume ID"))
      else fail (internal "Invalid device ID: ")

  unfoldable pub allocate_bindings :
      VolumeOptions → String → List VolumeBindingContext → NodeFlow (Unit {0})
  unfolding allocate_binding
  allocate_bindings options volume_id [] = pure tt
  allocate_bindings options volume_id (b ∷ bs) = do
    allocate_binding options volume_id b
    allocate_bindings options volume_id bs

  unfoldable pub handle_node_publish :
      (kind : String) → NodePublishVolumeRequest → NodeFlow (Unit {0})
  unfolding node_options parse_context allocate_bindings program show_layer
  handle_node_publish kind r = do
    options ← attempt (node_options driver r.volume_capability)
    controller ← attempt (parse_context driver r.publish_context)
    allocate_bindings options r.volume_id controller.bindings
    let context : VolumePublishContext = record {
      controller = controller;
      options = options;
      read_only = r.read_only;
      staging_target_path = r.staging_target_path;
      target_path = r.target_path;
      volume_id = r.volume_id;
    }
    call (published context) (
        outcome (internal "Failed to ")
          (programs.publish (program (show_layer controller.layer) kind) context))

  unfoldable pub handle_node_unpublish :
      (kind : String) → NodeUnpublishVolumeRequest → NodeFlow (Unit {0})
  unfolding program
  handle_node_unpublish kind r =
      let context : VolumeUnpublishContext = record {
        target_path = r.target_path;
        volume_id = r.volume_id;
      } in
      call (unpublished context)
        (outcome (internal "Failed to ") (programs.unpublish (program "generic" kind) context))

  unfoldable pub node_stage_volume : StageRequest → NodeFlow (Unit {0})
  unfolding handle_node_publish from_stage
  node_stage_volume r = handle_node_publish "stage" (from_stage r)

  unfoldable pub node_publish_volume : PublishRequest → NodeFlow (Unit {0})
  unfolding handle_node_publish from_publish
  node_publish_volume r = handle_node_publish "publish" (from_publish r)

  unfoldable pub node_unstage_volume : NodeUnpublishVolumeRequest → NodeFlow (Unit {0})
  unfolding handle_node_unpublish
  node_unstage_volume r = handle_node_unpublish "unstage" r

  unfoldable pub node_unpublish_volume : NodeUnpublishVolumeRequest → NodeFlow (Unit {0})
  unfolding handle_node_unpublish
  node_unpublish_volume r = handle_node_unpublish "unpublish" r
