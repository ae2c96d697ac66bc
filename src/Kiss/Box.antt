-- ===== src/Kiss/Box.antt =====
-- crates/openark-kiss-api/src/box.rs: the box, its life cycle and its group.
pub mod Equality
use eecs_k8s.Prelude.{
  ℕ, ◌*◌, String, ◌≡◌, Bool, true, false, not, ◌&&◌, Option, none, some, str_eq, ◌==◌,
  if◌then◌else◌,
}

pub data BoxState : Type 0 where
  new commissioning ready joining running group_changed failed disconnected : BoxState

unfoldable pub as_task : BoxState → Option String
as_task new = none
as_task commissioning = some "commission"
as_task ready = none
as_task joining = some "join"
as_task running = some "ping"
as_task group_changed = some "reset"
as_task failed = some "reset"
as_task disconnected = some "reset"

unfoldable pub cron : BoxState → Option String
cron running = some "@hourly"
cron group_changed = some "@hourly"
cron failed = some "@hourly"
cron disconnected = some "@hourly"
cron _ = none

unfoldable pub next : BoxState → BoxState
next new = commissioning
next commissioning = commissioning
next ready = joining
next joining = joining
next running = running
next group_changed = group_changed
next failed = failed
next disconnected = disconnected

-- Times and durations are in nanoseconds.
abbrev pub second : ℕ
second = 1_000_000_000

abbrev pub fallback_update : ℕ
fallback_update = 2 * 3600 * second

unfoldable pub timeout : BoxState → Option ℕ
timeout commissioning = some fallback_update
timeout joining = some fallback_update
timeout _ = none

abbrev pub timeout_new : ℕ
timeout_new = 30 * second

unfoldable pub complete : BoxState → Option BoxState
complete joining = some running
complete _ = none

pub data BoxGroupRole : Type 0 where
  control_plane : BoxGroupRole
  compute dashboard desktop gateway storage : BoxGroupRole
  robot : BoxGroupRole
  generic_worker external_worker : BoxGroupRole

unfoldable pub is_domain_specific : BoxGroupRole → Bool
is_domain_specific robot = true
is_domain_specific _ = false

unfoldable pub is_member : BoxGroupRole → Bool
is_member external_worker = false
is_member _ = true

unfoldable pub to_playbook : BoxGroupRole → String
to_playbook control_plane = "playbook-control_plane.yaml"
to_playbook _ = "playbook-worker.yaml"

pub record BoxGroupSpec : Type 0 where
  pub cluster_name : String
  pub role : BoxGroupRole

abbrev pub default_cluster_name : String
default_cluster_name = "default"

abbrev pub default_group : BoxGroupSpec
default_group = record { cluster_name = default_cluster_name; role = generic_worker }

unfoldable pub is_default : BoxGroupSpec → Bool
is_default group = str_eq group.cluster_name default_cluster_name

-- An address or a UUID is a number.
pub record BoxAccessInterfaceSpec : Type 0 where
  pub address : ℕ
  pub speed_mbps : Option ℕ

pub record BoxAccessSpec : Type 0 where
  pub primary : Option BoxAccessInterfaceSpec

abbrev pub default_access : BoxAccessSpec
default_access = record { primary = none }

unfoldable pub management : BoxAccessSpec → Option BoxAccessInterfaceSpec
management access = access.primary

pub record BoxMachineSpec : Type 0 where
  pub uuid : ℕ

pub data BoxPowerType : Type 0 where
  intel_amt ipmi : BoxPowerType

pub record BoxPowerSpec : Type 0 where
  pub address : Option ℕ
  pub power_type : BoxPowerType

pub record BoxSpec : Type 0 where
  pub group : BoxGroupSpec
  pub machine : BoxMachineSpec
  pub power : Option BoxPowerSpec

pub record BoxStatus : Type 0 where
  pub state : BoxState
  pub access : BoxAccessSpec
  pub bind_group : Option BoxGroupSpec
  pub last_updated : ℕ

-- Of the object's metadata the operators read the creation time and one label.
pub record BoxCrd : Type 0 where
  pub creation_timestamp : Option ℕ
  pub verify_bind_group_label : Option String
  pub spec : BoxSpec
  pub status : Option BoxStatus

unfoldable pub last_updated_or_created : BoxCrd → Option ℕ
last_updated_or_created b = elim b.status [
  | some status ↦ some status.last_updated
  | none ↦ b.creation_timestamp
]

-- The derived equalities. An enumeration is compared by the position of its variant.
abbrev pub state_index : BoxState → ℕ
state_index new = 0
state_index commissioning = 1
state_index ready = 2
state_index joining = 3
state_index running = 4
state_index group_changed = 5
state_index failed = 6
state_index disconnected = 7

unfoldable pub state_eq : BoxState → BoxState → Bool
state_eq a b = state_index a == state_index b

abbrev pub role_index : BoxGroupRole → ℕ
role_index control_plane = 0
role_index compute = 1
role_index dashboard = 2
role_index desktop = 3
role_index gateway = 4
role_index storage = 5
role_index robot = 6
role_index generic_worker = 7
role_index external_worker = 8

unfoldable pub role_eq : BoxGroupRole → BoxGroupRole → Bool
role_eq a b = role_index a == role_index b

unfoldable pub group_eq : BoxGroupSpec → BoxGroupSpec → Bool
unfolding role_eq
group_eq a b = str_eq a.cluster_name b.cluster_name && role_eq a.role b.role
