-- ===== src/Kiss/Ansible.antt =====
-- crates/openark-kiss-ansible/src/lib.rs: the jobs that the operator asks for.
use eecs_k8s.Prelude.{ℕ, String, Bool, Option}
use eecs_k8s.Kiss.Box.{BoxState, BoxGroupSpec, BoxCrd}

pub data AnsibleResourceType : Type 0 where
  minimal normal : AnsibleResourceType

pub record AnsibleJob : Type 0 where
  pub cron : Option String
  pub task : String
  pub target : BoxCrd
  pub new_group : Option BoxGroupSpec
  pub new_state : Option BoxState
  pub is_critical : Bool
  pub resource_type : AnsibleResourceType
  pub use_workers : Bool

-- The limits of a container: millicores and MiB.
pub record ResourceRequirements : Type 0 where
  pub cpu_milli : ℕ
  pub memory_mi : ℕ

unfoldable pub to_requirements : AnsibleResourceType → ResourceRequirements
to_requirements AnsibleResourceType.minimal = record { cpu_milli = 100; memory_mi = 500 }
to_requirements AnsibleResourceType.normal = record { cpu_milli = 900; memory_mi = 2048 }
