-- ===== src/Kiss/Cluster.antt =====
-- crates/openark-kiss-ansible/src/cluster.rs: `ClusterState`, the nodes of a cluster and which of
-- them may join.
pub mod Queue
pub mod Etcd
pub mod Leader
pub mod Loading
pub mod Current
use eecs_k8s.Prelude.{
  ℕ, suc, ◌%◌, ◌<◌, String, Bool, true, false, not, ◌&&◌, ◌||◌, Option, none, some, List, [], ◌∷◌,
  map, str_eq, ◌==◌, ltb, length, take, unwrap_or, if◌then◌else◌, is_some,
}
use eecs_k8s.Prelude.Select.{filter, any, find, count_if}
use eecs_k8s.Prelude.Sort.{lex_leb, option_key, bool_key, sort_by_key}
use eecs_k8s.Kiss.Box.{
  BoxState, BoxGroupSpec, BoxAccessInterfaceSpec, BoxSpec, BoxStatus, BoxCrd, ready, running,
  control_plane, is_default, role_eq,
}
use eecs_k8s.Kiss.Group
use eecs_k8s.Kiss.Group.{
  get_host, ClusterBoxState, Nodes, only_running, running_with, node_key, load_control_planes,
  load_worker_nodes,
}

pub record ClusterState : Type 0 where
  pub etcd_nodes_max : ℕ
  pub control_planes : Nodes
  pub owner_group : BoxGroupSpec
  pub owner_uuid : ℕ
  pub workers : Option Nodes

-- `load`, from the lists of boxes that the API server returns.
unfoldable pub load : ℕ → List BoxCrd → Option (List BoxCrd) → BoxSpec → ClusterState
unfolding load_control_planes load_worker_nodes
load etcd_nodes_max boxes worker_boxes owner = record {
  etcd_nodes_max = etcd_nodes_max;
  control_planes = load_control_planes boxes owner.group.cluster_name;
  owner_group = owner.group;
  owner_uuid = owner.machine.uuid;
  workers = elim worker_boxes [
    | none ↦ none
    | some bs ↦ some (load_worker_nodes bs owner.group.cluster_name)
  ];
}

unfoldable pub get_first_control_plane : ClusterState → Option BoxCrd
unfolding Group.iter
get_first_control_plane s = elim (Group.iter s.control_planes only_running) [
  | [] ↦ none
  | n ∷ _ ↦ some n.1
]

abbrev not_running_key : ClusterBoxState → ℕ
not_running_key node = bool_key (not node.is_running)

unfoldable pub sort_nodes_by_date : ClusterBoxState → List ℕ
sort_nodes_by_date node = not_running_key node ∷ option_key node.created_at ∷ node_key node

unfoldable pub sort_nodes_by_name : ClusterBoxState → List ℕ
sort_nodes_by_name node = not_running_key node ∷ node.uuid ∷ []

unfoldable pub has_host : ClusterBoxState → Bool
unfolding get_host
has_host node = is_some (get_host node)

-- `get_nodes_as_string`: the nodes that the text names, in its order. They are sorted, and one that
-- has no host is dropped.
unfoldable pub get_nodes : (ClusterBoxState → List ℕ) → List ClusterBoxState → List ClusterBoxState
unfolding filter has_host sort_by_key
get_nodes key nodes = filter has_host (sort_by_key key nodes)

unfoldable pub get_control_planes : ClusterState → List ClusterBoxState
unfolding Group.to_vec get_nodes sort_nodes_by_name
get_control_planes s =
    get_nodes sort_nodes_by_name (Group.to_vec s.control_planes (running_with s.owner_uuid))

truncate : ℕ → List ClusterBoxState → List ClusterBoxState
truncate max nodes = if ltb 0 max then take max nodes else nodes

-- `pop` of an even number of nodes; of none it does nothing.
pop : List ClusterBoxState → List ClusterBoxState
pop [] = []
pop (x ∷ []) = []
pop (x ∷ y ∷ ys) = x ∷ pop (y ∷ ys)

odd_prefix : List ClusterBoxState → List ClusterBoxState
odd_prefix nodes = if length nodes % 2 == 0 then pop nodes else nodes

unfoldable pub get_etcd_nodes : ClusterState → List ClusterBoxState
unfolding Group.to_vec get_nodes sort_nodes_by_date truncate pop odd_prefix
get_etcd_nodes s = get_nodes sort_nodes_by_date (
    odd_prefix
      (truncate s.etcd_nodes_max (Group.to_vec s.control_planes (running_with s.owner_uuid))))

unfoldable pub get_worker_nodes : ClusterState → Option (List ClusterBoxState)
unfolding Group.to_vec get_nodes sort_nodes_by_date
get_worker_nodes s = elim s.workers [
  | none ↦ none
  | some nodes ↦ some (get_nodes sort_nodes_by_date (Group.to_vec nodes only_running))
]

unfoldable pub is_control_plane_ready : ClusterState → Bool
unfolding Group.num_ready
is_control_plane_ready s = Group.num_ready s.control_planes == Group.num_total s.control_planes

unfoldable pub is_control_plane_running : ClusterState → Bool
unfolding Group.num_running
is_control_plane_running s =
    if Group.num_running s.control_planes == 0 && not (is_default s.owner_group)
    then false
    else Group.num_running s.control_planes == Group.num_total s.control_planes

unfoldable pub is_node_control_plane : ClusterState → Bool
unfolding Group.contains
is_node_control_plane s = Group.contains s.control_planes s.owner_uuid

unfoldable pub is_joinable : ClusterState → Bool
unfolding is_node_control_plane is_control_plane_ready is_control_plane_running Group.is_next
is_joinable s =
    if is_node_control_plane s
    then is_control_plane_ready s && Group.is_next s.control_planes s.owner_uuid
    else is_control_plane_running s

unfoldable pub is_new : ClusterState → Bool
unfolding is_node_control_plane Group.is_running
is_new s = is_node_control_plane s && not (Group.is_running s.control_planes)

-- The cluster as the first of its running control planes sees it.
unfoldable pub current_of : ℕ → String → Nodes → Option (List BoxCrd) → Nodes → Option ClusterState
unfolding load_worker_nodes
current_of etcd_nodes_max cluster_name nodes worker_boxes [] = none
current_of etcd_nodes_max cluster_name nodes worker_boxes (owner ∷ others) = some (record {
  etcd_nodes_max = etcd_nodes_max;
  control_planes = nodes;
  owner_group = record { cluster_name = cluster_name; role = control_plane };
  owner_uuid = owner.0.uuid;
  workers = elim worker_boxes [ none ↦ none | some bs ↦ some (load_worker_nodes bs cluster_name) ];
})

-- `load_current_cluster`: none is the error that the cluster is not running.
unfoldable pub load_current_cluster :
    ℕ → String → List BoxCrd → Option (List BoxCrd) → Option ClusterState
unfolding load_control_planes Group.iter current_of
load_current_cluster etcd_nodes_max cluster_name boxes worker_boxes =
    current_of etcd_nodes_max cluster_name (load_control_planes boxes cluster_name) worker_boxes
      (Group.iter (load_control_planes boxes cluster_name) only_running)
