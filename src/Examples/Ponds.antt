-- ===== src/Examples/Ponds.antt =====
-- The storage driver on two devices of one pond.
use mathlib.Core.List.{Permᴰ}
use eecs_k8s.Prelude.{ℕ, String, ◌≡◌, refl, false, none, some, List, [], ◌∷◌, ◌++◌, map, All, arith}
use eecs_k8s.Prelude.Panic.{ok, Yields}
use eecs_k8s.Prelude.Dict.{string_eq}
use eecs_k8s.DataPond.Types.{Device, DeviceLayer, DeviceSource, VolumeOptions}
use eecs_k8s.DataPond.Binding.{Pond, VolumeBindingClaim}
use eecs_k8s.DataPond.Candidates.{DeviceKey, key_of}
use eecs_k8s.DataPond.Picking.Spec.{share, Replicated, Fits, IsSane}
use eecs_k8s.DataPond.Controller.Create.{place, index_from}
use eecs_k8s.DataPond.Controller.Create.Promise.{place-Replicated, place-Fits}
use eecs_k8s.DataPond.Controller.Provision.{validate}
use eecs_k8s.DataPond.Controller.Provision.Recovery.{validate-index_from}

abbrev pub options : VolumeOptions
options = record { fs_type = some "ext4"; mount_flags = []; mount_group = ""; mount_shared = false }

-- A device of 100 MiB, and one of 64 MiB.
abbrev pub disk : String → ℕ → Device
disk id capacity = record {
  id = id;
  pond_id = "node";
  uid = none;
  layer = DeviceLayer.lvm;
  source = DeviceSource.nvme;
  capacity = capacity;
}

abbrev pub pond : Pond
pond = record {
  addr = "10.0.0.1";
  bindings = [];
  devices = disk "a" 104_857_600 ∷ disk "b" 67_108_864 ∷ [];
  id = "node";
  topology = record { required = []; provides = ("kubernetes.io/hostname", "node") ∷ [] };
}

abbrev pub claim_on : Device → VolumeBindingClaim
claim_on device = record {
  device = device;
  metadata = record {
    volume_id = "pond_v";
    device_id = device.id;
    index_bindings = 0;
    total_bindings = 0;
    offset = 0;
    reserved = 0;
  };
  pond = pond;
}

abbrev pub two_devices : List VolumeBindingClaim
two_devices = claim_on (disk "a" 104_857_600) ∷ claim_on (disk "b" 67_108_864) ∷ []

two-IsSane : All IsSane two_devices
two-IsSane = ((omega arith, omega arith), ((omega arith, omega arith), tt))

-- Two replicas of 32 MiB, one on each device.
placed_keys :
    Yields
      (λ out. map (λ b. b.metadata.reserved) out ≡ 37_748_736 ∷ 37_748_736 ∷ [])
      (place 2 33_554_432 two_devices)
unfolding place
placed_keys = refl

place-Replicated_example :
    Yields (λ out. Replicated 33_554_432 2 (map share out)) (place 2 33_554_432 two_devices)
place-Replicated_example = place-Replicated 2 33_554_432 two_devices two-IsSane (omega arith)

place-Fits_example :
    Yields
      (λ out.
        All Fits out
        × ((rest : List DeviceKey) × (map key_of out ++ rest ≡ map key_of two_devices)))
      (place 2 33_554_432 two_devices)
place-Fits_example = place-Fits 2 33_554_432 two_devices two-IsSane (omega arith)

abbrev reported : List VolumeBindingClaim
unfolding index_from
reported =
    index_from 1 2 (claim_on (disk "b" 67_108_864) ∷ [])
    ++ index_from 0 2 (claim_on (disk "a" 104_857_600) ∷ [])

swapped : Permᴰ (index_from 0 2 two_devices) reported
unfolding index_from
swapped = Permᴰ.swap refl refl

validate-index_from_example : validate reported ≡ ok (index_from 0 2 two_devices)
validate-index_from_example =
    validate-index_from two_devices reported (omega arith) (omega arith) swapped

abbrev full_device : VolumeBindingClaim
full_device =
    let b = claim_on (disk "a" 67_108_864) in
    record b { metadata = record b.metadata { offset = 67_108_864 } }

-- A device that is full and comes first is bound with no bytes, and its padding is made up for by the
-- next device.
full_first :
    Yields
      (λ out. map (λ b. b.metadata.reserved) out ≡ 0 ∷ 41_943_040 ∷ [])
      (place 1 33_554_432 (full_device ∷ claim_on (disk "b" 67_108_864) ∷ []))
unfolding place
full_first = refl

-- Four replicas of 2 ^ 62 bytes are placed on 100 MiB: the product of the two wraps around to none.
wraps_around :
    Yields
      (λ out. map (λ b. b.metadata.reserved) out ≡ 104_857_600 ∷ [])
      (place 4 4_611_686_018_427_387_904 (claim_on (disk "a" 104_857_600) ∷ []))
unfolding place
wraps_around = refl
