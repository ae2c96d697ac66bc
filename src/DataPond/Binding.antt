-- ===== src/DataPond/Binding.antt =====
-- contrib/data-pond/src/volume.rs: the part of a device that a volume claims.
use eecs_k8s.Prelude.{ℕ, String, List}
use eecs_k8s.Prelude.I64.{add, sub, min}
use eecs_k8s.DataPond.Types.{Device, VolumeBindingMetadata, DeviceTopology, padding}

-- The client of a pond is its address.
pub record Pond : Type 0 where
  pub addr : String
  pub bindings : List VolumeBindingMetadata
  pub devices : List Device
  pub id : String
  pub topology : DeviceTopology

pub record VolumeBindingClaim : Type 0 where
  pub device : Device
  pub metadata : VolumeBindingMetadata
  pub pond : Pond

unfoldable pub available : VolumeBindingClaim → ℕ
unfolding padding sub
available b = sub (sub b.device.capacity b.metadata.offset) (padding b.device.layer)

-- The claim with its reservation, and the bytes of it that serve the volume.
unfoldable pub reserve : VolumeBindingClaim → ℕ → VolumeBindingClaim × ℕ
unfolding available padding add min
reserve b remaining =
    let reserved = min (available b) remaining in
    (
      record b {
        metadata = record b.metadata { reserved = add reserved (padding b.device.layer) };
      },
      reserved,
    )
