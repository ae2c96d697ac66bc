-- ===== src/Examples/Spawn.antt =====
-- The join job of a lone control plane node (crates/openark-kiss-ansible/src/lib.rs).
use eecs_k8s.Prelude.{
  String, ◌≡◌, refl, true, false, Option, none, some, [], ◌∷◌, All, str_eq, if◌then◌else◌,
}
use eecs_k8s.Prelude.Flow.{ok}
use eecs_k8s.Kiss.Box.{BoxState, BoxCrd, ready, joining, running, control_plane}
use eecs_k8s.Kiss.Box
use eecs_k8s.Kiss.Ansible.{AnsibleJob, normal}
use eecs_k8s.Kiss.Operator.{requeue}
use eecs_k8s.Kiss.Job.{JobContext, reconcile_job}
use eecs_k8s.Kiss.Spawn.{AnsibleClient, listed, spawn, complete_option}
use eecs_k8s.Kiss.Spawn.Admission.{IsAdmitted, spawn-IsAdmitted}
use eecs_k8s.Kiss.Spawn.Completion.{succeeded_job, completion, reconcile_job-labels_of}

abbrev lone : BoxCrd
lone = record {
  creation_timestamp = some 1;
  verify_bind_group_label = none;
  spec = record {
    group = record { cluster_name = "edge"; role = control_plane };
    machine = record { uuid = 1 };
    power = none;
  };
  status = some (record {
    state = ready;
    access = record { primary = none };
    bind_group = none;
    last_updated = 0;
  });
}

abbrev join_job : AnsibleJob
join_job = record {
  cron = none;
  task = "join";
  target = lone;
  new_group = none;
  new_state = some joining;
  is_critical = false;
  resource_type = normal;
  use_workers = false;
}

abbrev show_state : BoxState → String
show_state Box.new = "New"
show_state Box.commissioning = "Commissioning"
show_state Box.ready = "Ready"
show_state Box.joining = "Joining"
show_state Box.running = "Running"
show_state Box.group_changed = "GroupChanged"
show_state Box.failed = "Failed"
show_state Box.disconnected = "Disconnected"

abbrev parse_state : String → Option BoxState
parse_state text =
    if str_eq text "New"
    then some Box.new
    else if str_eq text "Commissioning"
    then some Box.commissioning
    else if str_eq text "Ready"
    then some Box.ready
    else if str_eq text "Joining"
    then some Box.joining
    else if str_eq text "Running"
    then some Box.running
    else if str_eq text "GroupChanged"
    then some Box.group_changed
    else if str_eq text "Failed"
    then some Box.failed
    else if str_eq text "Disconnected"
    then some Box.disconnected
    else none

parse_state-show_state : (s : BoxState) → parse_state (show_state s) ≡ some s
parse_state-show_state Box.new = refl
parse_state-show_state Box.commissioning = refl
parse_state-show_state Box.ready = refl
parse_state-show_state Box.joining = refl
parse_state-show_state Box.running = refl
parse_state-show_state Box.group_changed = refl
parse_state-show_state Box.failed = refl
parse_state-show_state Box.disconnected = refl

abbrev client : AnsibleClient
client = record {
  etcd_nodes_max = 3;
  group_force_reset = false;
  show_uuid = λ uuid. "uuid";
  show_state = show_state;
  delete_cronjobs = λ name. none;
  delete_jobs = λ name. none;
  control_planes = listed (lone ∷ []);
  workers = listed [];
  create = λ c. none;
}

abbrev context : JobContext
context = record {
  interval = 30;
  now = 100;
  patch_status = λ name state. none;
  publish = λ state. none;
  parse_state = parse_state;
}

-- The job is created.
spawn_lone : (spawn client join_job).0 ≡ ok true
unfolding spawn Box.state_eq Box.role_eq eecs_k8s.Kiss.Group.from_box
spawn_lone = refl

joins : Box.state_eq joining joining ≡ true
unfolding Box.state_eq
joins = refl

spawn-IsAdmitted_example : All (IsAdmitted client join_job) (spawn client join_job).1
spawn-IsAdmitted_example = spawn-IsAdmitted client join_job joins

reconcile_job-labels_of_example :
    reconcile_job context (succeeded_job client join_job)
    ≡ (ok (requeue 30), completion context "uuid" (complete_option (some joining)))
reconcile_job-labels_of_example =
    reconcile_job-labels_of client join_job context (λ name s. refl) (λ s. refl) refl
      parse_state-show_state
