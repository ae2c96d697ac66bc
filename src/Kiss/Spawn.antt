-- ===== src/Kiss/Spawn.antt =====
-- crates/openark-kiss-ansible/src/lib.rs: `AnsibleClient::spawn`. Of the pod that it creates the
-- model has the labels and what the state of the box and of its cluster decides.
pub mod Admission
pub mod Completion
use Prim.Native.String.{◌++◌}
use eecs_k8s.Prelude.{
  ℕ, String, Bool, true, false, not, ◌&&◌, ◌||◌, Option, none, some, List, [], ◌∷◌, unwrap_or,
  if◌then◌else◌,
}
use eecs_k8s.Prelude.Flow.{Flow, Outcome, ◌>>=◌, ◌>>◌, pure, return, fail, call}
use eecs_k8s.Kiss.Box.{
  BoxState, BoxGroupRole, BoxGroupSpec, BoxSpec, BoxCrd, joining, control_plane, complete, state_eq,
  group_eq, role_eq, to_playbook, is_default, is_member, is_domain_specific,
}
use eecs_k8s.Kiss.Ansible.{AnsibleJob, ResourceRequirements, to_requirements}
use eecs_k8s.Kiss.Group.{ClusterBoxState}
use eecs_k8s.Kiss.Cluster.{
  ClusterState, load, is_joinable, is_new, get_control_planes, get_etcd_nodes, get_worker_nodes,
}
use eecs_k8s.Kiss.Operator.{Error, bind_group}
use eecs_k8s.Kiss.Job.{parse_bool, label_box_name, label_completed_state, label_job_is_critical}

-- What the list of the boxes answers.
pub data Listed : Type 0 where
  listed : List BoxCrd → Listed
  unlisted : Error → Listed

-- What is created: a job, or a cron job where there is a schedule.
pub record Created : Type 0 where
  pub name : String
  pub schedule : Option String
  pub labels : List (String × String)
  pub priority_class_name : String
  pub tolerates_all : Bool
  pub playbook : String
  pub control_planes : List ClusterBoxState
  pub etcd_nodes : List ClusterBoxState
  pub cluster_is_default : Bool
  pub cluster_is_new : Bool
  pub worker_nodes : List ClusterBoxState
  pub force_reset : Bool
  pub role_is_domain_specific : Bool
  pub role_is_member : Bool
  pub resources : ResourceRequirements

pub data SpawnEvent : Type 0 where
  deleted_cronjobs deleted_jobs : String → SpawnEvent
  created : Created → SpawnEvent

-- The configuration, the texts of a UUID and of a state, and the answers of the API server.
pub record AnsibleClient : Type 0 where
  pub etcd_nodes_max : ℕ
  pub group_force_reset : Bool
  pub show_uuid : ℕ → String
  pub show_state : BoxState → String
  pub delete_cronjobs : String → Option Error
  pub delete_jobs : String → Option Error
  pub control_planes : Listed
  pub workers : Listed
  pub create : Created → Option Error

abbrev pub SpawnStep : Type 0 → Type 0
SpawnStep A = Flow SpawnEvent Error Bool A

abbrev pub boxes_of : Listed → SpawnStep (List BoxCrd)
boxes_of (listed boxes) = pure boxes
boxes_of (unlisted e) = fail e

abbrev pub worker_boxes_of : Bool → Listed → SpawnStep (Option (List BoxCrd))
worker_boxes_of false answer = pure none
worker_boxes_of true (listed boxes) = pure (some boxes)
worker_boxes_of true (unlisted e) = fail e

abbrev pub read_label : Option String → Option Bool
read_label none = none
read_label (some text) = parse_bool text

unfoldable pub verify_bind_group : BoxCrd → Bool
unfolding parse_bool
verify_bind_group b = unwrap_or (read_label b.verify_bind_group_label) true

abbrev pub differs : Option BoxGroupSpec → BoxGroupSpec → Bool
differs none group = true
differs (some bound) group = not (group_eq bound group)

unfoldable pub force_reset_of : AnsibleClient → BoxCrd → Bool
unfolding verify_bind_group bind_group
force_reset_of client b =
    client.group_force_reset || (verify_bind_group b && differs (bind_group b) b.spec.group)

abbrev pub show_bool : Bool → String
show_bool true = "true"
show_bool false = "false"

abbrev pub complete_option : Option BoxState → Option BoxState
complete_option none = none
complete_option (some state) = complete state

abbrev pub completed_label : AnsibleClient → Option BoxState → List (String × String)
completed_label client none = []
completed_label client (some state) = (label_completed_state, client.show_state state) ∷ []

unfoldable pub labels_of : AnsibleClient → AnsibleJob → List (String × String)
unfolding complete
labels_of client job =
    (label_box_name, client.show_uuid job.target.spec.machine.uuid)
    ∷ ("kiss.ulagbulag.io/box_machine_uuid", client.show_uuid job.target.spec.machine.uuid)
    ∷ (label_job_is_critical, show_bool job.is_critical)
    ∷ ("kiss.ulagbulag.io/job_name", job.task)
    ∷ ("serviceType", "ansible-task")
    ∷ completed_label client (complete_option job.new_state)

abbrev pub is_joining : Option BoxState → Bool
is_joining none = false
is_joining (some state) = state_eq state joining

-- The lists of the nodes are given to a job that joins, or has no state.
abbrev pub lists_nodes : Option BoxState → Bool
lists_nodes none = true
lists_nodes (some state) = state_eq state joining

unfoldable pub created_of : AnsibleClient → AnsibleJob → ClusterState → Created
unfolding labels_of force_reset_of
created_of client job cluster = record {
  name = "box-" ++ job.task ++ "-" ++ client.show_uuid job.target.spec.machine.uuid;
  schedule = job.cron;
  labels = labels_of client job;
  priority_class_name =
      if role_eq job.target.spec.group.role control_plane
      then "system-cluster-critical"
      else "k8s-cluster-critical";
  tolerates_all = job.is_critical;
  playbook = "/opt/playbook/" ++ to_playbook job.target.spec.group.role;
  control_planes = if lists_nodes job.new_state then get_control_planes cluster else [];
  etcd_nodes = if lists_nodes job.new_state then get_etcd_nodes cluster else [];
  cluster_is_default = is_default job.target.spec.group;
  cluster_is_new = is_new cluster;
  worker_nodes = if job.use_workers then unwrap_or (get_worker_nodes cluster) [] else [];
  force_reset = force_reset_of client job.target;
  role_is_domain_specific = is_domain_specific job.target.spec.group.role;
  role_is_member = is_member job.target.spec.group.role;
  resources = to_requirements job.resource_type;
}

-- The queue: a box joins only where the cluster admits it.
unfoldable pub admit : AnsibleClient → AnsibleJob → ClusterState → SpawnStep Bool
unfolding created_of is_joinable
admit client job cluster =
    if is_joining job.new_state && not (is_joinable cluster) then return false else do
      call (created (created_of client job cluster)) (client.create (created_of client job cluster))
      pure true

-- All previous jobs of the box are deleted first.
unfoldable pub spawn : AnsibleClient → AnsibleJob → SpawnStep Bool
unfolding admit load
spawn client job = do
  call (deleted_cronjobs (client.show_uuid job.target.spec.machine.uuid))
      (client.delete_cronjobs (client.show_uuid job.target.spec.machine.uuid))
  call (deleted_jobs (client.show_uuid job.target.spec.machine.uuid))
      (client.delete_jobs (client.show_uuid job.target.spec.machine.uuid))
  boxes ← boxes_of client.control_planes
  workers ← worker_boxes_of job.use_workers client.workers
  admit client job (load client.etcd_nodes_max boxes workers job.target.spec)
