-- ===== src/Vine/Session/Limits.antt =====
-- crates/openark-vine-session-api/src/lib.rs: what a session gives to its application.
use eecs_k8s.Prelude.{String, Bool, Option, none, some, [], ◌∷◌, if◌then◌else◌}
use eecs_k8s.Prelude.Panic.{Result, ok, err, ◌>>=◌}
use eecs_k8s.Prelude.Dict.{string_eq, Dict, insert}
use eecs_k8s.Vine.Session.{
  SessionArgs, SessionGpu, intel, nvidia, ComputeMode, container, kueue, vm,
}
use eecs_k8s.Vine.Session.Changes.{NodeSession}

abbrev pub ok_or : {A : Type 0} → Option A → String → Result String A
ok_or none e = err e
ok_or (some a) e = ok a

-- `args.force_gpu.or(metadata.gpu)`
abbrev pub or_else : {A : Type 0} → Option A → Option A → Option A
or_else none b = b
or_else (some a) b = some a

-- `is_device`: the name is that of an NVIDIA device and not of its audio.
module _ (is_device : String → Bool) where
  unfoldable pub attach_devices : Dict String String → Dict String String → Dict String String
  unfolding insert
  attach_devices [] limits = limits
  attach_devices ((key, _) ∷ more) limits =
      if is_device key
      then attach_devices more (insert key "1" limits)
      else attach_devices more limits

  abbrev pub attach_all : Option (Dict String String) → Dict String String → Dict String String
  unfolding attach_devices
  attach_all none limits = limits
  attach_all (some allocatable) limits = attach_devices allocatable limits

  unfoldable pub attach_gpu :
      SessionGpu
      → Option ComputeMode
      → (allocatable : Option (Dict String String)) → Dict String String
      → Dict String String
  unfolding attach_all insert
  attach_gpu intel mode allocatable limits = limits
  attach_gpu nvidia none allocatable limits = limits
  attach_gpu nvidia (some container) allocatable limits = insert "nvidia.com/gpu" "1" limits
  attach_gpu nvidia (some kueue) allocatable limits = insert "nvidia.com/gpu" "1" limits
  attach_gpu nvidia (some vm) allocatable limits = attach_all allocatable limits

  unfoldable pub to_resources_compute :
      SessionArgs → NodeSession → Result String (Dict String String)
  unfolding attach_gpu
  to_resources_compute args s = do
    cpu ← ok_or s.metadata.bind_cpu "CPU is not provisioned yet"
    memory ← ok_or s.metadata.bind_memory "Memory is not provisioned yet"
    gpu ← ok_or (or_else args.force_gpu s.metadata.gpu) "GPU is not detected or not provisioned yet"
    ok (
        attach_gpu gpu s.metadata.compute_mode s.node.allocatable
          (("memory", memory) ∷ ("cpu", cpu) ∷ []))

unfoldable pub to_resources_local_storage : NodeSession → Result String (Dict String String)
to_resources_local_storage s = do
  storage ← ok_or s.metadata.bind_storage "Local storage is not provisioned yet"
  ok (("storage", storage) ∷ [])
