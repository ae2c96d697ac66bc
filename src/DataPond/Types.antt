-- ===== src/DataPond/Types.antt =====
-- contrib/data-pond-csi/{proto/pond.proto,src/lib.rs} and contrib/data-pond-api/src/lib.rs: the
-- messages. `i64` is a residue (Prelude.I64). `VolumeSecrets` has no field, and is left out.
use eecs_k8s.Prelude.{ℕ, String, Option, List, Bool}
use eecs_k8s.Prelude.Dict.{Dict}

-- The gRPC status of an error, by its code, with the constant part of its message.
pub data Status : Type 0 where
  invalid_argument unavailable internal unimplemented aborted resource_exhausted not_found :
      String → Status

pub data DeviceLayer : Type 0 where
  unknown lvm : DeviceLayer

pub data DeviceSource : Type 0 where
  unknown nvme : DeviceSource

-- `4 << 20`
unfoldable pub padding : DeviceLayer → ℕ
padding DeviceLayer.unknown = 0
padding DeviceLayer.lvm = 4_194_304

unfoldable pub margin : DeviceLayer → ℕ
margin DeviceLayer.unknown = 0
margin DeviceLayer.lvm = 0

pub record Device : Type 0 where
  pub id : String
  pub pond_id : String
  pub uid : Option String
  pub layer : DeviceLayer
  pub source : DeviceSource
  pub capacity : ℕ

pub record DeviceTopology : Type 0 where
  pub required : Dict String String
  pub provides : Dict String String

pub record VolumeBindingMetadata : Type 0 where
  pub volume_id : String
  pub device_id : String
  pub index_bindings : ℕ
  pub total_bindings : ℕ
  pub offset : ℕ
  pub reserved : ℕ

pub record VolumeOptions : Type 0 where
  pub fs_type : Option String
  pub mount_flags : List String
  pub mount_group : String
  pub mount_shared : Bool

pub record AllocateVolumeRequest : Type 0 where
  pub device_id : String
  pub binding : Option VolumeBindingMetadata
  pub options : Option VolumeOptions

pub record ListDevicesResponse : Type 0 where
  pub id : String
  pub bindings : List VolumeBindingMetadata
  pub devices : List Device
  pub topology : Option DeviceTopology

pub record VolumeBindingContext : Type 0 where
  pub addr : String
  pub device : Device
  pub layer : DeviceLayer
  pub metadata : VolumeBindingMetadata
  pub source : DeviceSource

pub record VolumeAllocateContext : Type 0 where
  pub binding : VolumeBindingContext
  pub options : VolumeOptions

pub record VolumePublishControllerContext : Type 0 where
  pub bindings : List VolumeBindingContext
  pub layer : DeviceLayer

pub record VolumePublishContext : Type 0 where
  pub controller : VolumePublishControllerContext
  pub options : VolumeOptions
  pub read_only : Bool
  pub staging_target_path : String
  pub target_path : Option String
  pub volume_id : String

pub record VolumeUnpublishContext : Type 0 where
  pub target_path : String
  pub volume_id : String
