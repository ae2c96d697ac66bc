-- ===== src/Vine/Session.antt =====
-- crates/openark-vine-session-api/src/{lib,profile,binding}.rs: what a session of a node is.
pub mod Metadata
pub mod Taints
pub mod Resources
pub mod Changes
pub mod Equality
pub mod Limits
pub mod Labels
use eecs_k8s.Prelude.{
  ℕ, String, Bool, true, false, Option, none, some, List, unwrap_or, not, if◌then◌else◌,
}
use eecs_k8s.Prelude.Dict.{Dict}

pub data SessionGpu : Type 0 where
  intel nvidia : SessionGpu

pub data ComputeMode : Type 0 where
  container kueue vm : ComputeMode

-- The default mode.
abbrev pub default_mode : ComputeMode
default_mode = vm

unfoldable pub as_nvidia_gpu_replicas : ComputeMode → ℕ
as_nvidia_gpu_replicas container = 256
as_nvidia_gpu_replicas kueue = 1
as_nvidia_gpu_replicas vm = 1

unfoldable pub as_nvidia_gpu_workload_config : ComputeMode → String
as_nvidia_gpu_workload_config container = "container"
as_nvidia_gpu_workload_config kueue = "container"
as_nvidia_gpu_workload_config vm = "vm-passthrough"

-- The arguments that a session is read and written with. The duration is in milliseconds.
pub record SessionArgs : Type 0 where
  pub duration_sign_out : ℕ
  pub force_gpu : Option SessionGpu
  pub label_alias : String
  pub label_bind : String
  pub label_bind_cpu : String
  pub label_bind_memory : String
  pub label_bind_namespace : String
  pub label_bind_node : String
  pub label_bind_persistent : String
  pub label_bind_privileged : String
  pub label_bind_profile : String
  pub label_bind_revision : String
  pub label_bind_storage : String
  pub label_bind_timestamp : String
  pub label_bind_user : String
  pub label_compute_mode : String
  pub label_gpu : String
  pub label_signed_out : String

pub data SessionMode : Type 0 where
  desktop manual notebook nvidia_triton ollama : SessionMode

unfoldable pub is_pod : SessionMode → Bool
is_pod desktop = true
is_pod manual = false
is_pod notebook = true
is_pod nvidia_triton = true
is_pod ollama = true

-- Of a profile, what the operator reads.
pub record SessionProfile : Type 0 where
  pub labels : Dict String String
  pub resource_version : Option String
  pub persistence_enabled : Option Bool
  pub vm_enabled : Option Bool
  pub host_display : Option Bool
  pub mode : Option SessionMode

pub data SessionBindingUserKind : Type 0 where
  guest user : SessionBindingUserKind

-- The priority is an `i32`, as its residue below 2 ^ 32.
pub record SessionBinding : Type 0 where
  pub deletion_timestamp : Option ℕ
  pub creation_timestamp : Option ℕ
  pub uid : Option String
  pub enabled : Option Bool
  pub node_selector : Option (Dict String String)
  pub priority : ℕ
  pub profile : String
  pub user_kind : SessionBindingUserKind
  pub user_name : Option String
  pub user_privileged : Option Bool

unfoldable pub infer_compute_mode : SessionProfile → ComputeMode
unfolding is_pod
infer_compute_mode p =
    if unwrap_or p.vm_enabled false
    then vm
    else if is_pod (unwrap_or p.mode manual)
    then container
    else kueue

pub record Taint : Type 0 where
  pub key : String
  pub value : Option String
  pub effect : String
  pub time_added : Option ℕ

-- Of a node, what the operator reads. A node without a specification has no taints.
pub record Node : Type 0 where
  pub name : Option String
  pub labels : Option (Dict String String)
  pub taints : Option (List Taint)
  pub allocatable : Option (Dict String String)
