-- ===== src/Examples/Cluster.antt =====
-- Clusters of three boxes (crates/openark-kiss-ansible/src/cluster.rs).
use eecs_k8s.Prelude.{
  ◌+◌, ◌%◌, ◌≤◌, ◌<◌, ◌&&◌, ◌==◌, ℕ, ◌≡◌, ◌≢◌, refl, ◌⊎◌, true, false, not, Option, none, some,
  List, [], ◌∷◌, arith, All, map, length,
}
use eecs_k8s.Prelude.Select.{any}
use eecs_k8s.Kiss
use eecs_k8s.Kiss.Box.{
  BoxState, BoxGroupRole, BoxSpec, BoxCrd, ready, running, control_plane, compute, ipmi, is_default,
}
use eecs_k8s.Kiss.Group
use eecs_k8s.Kiss.Group.{load_control_planes, is_control_plane_of, running_with, ClusterBoxState}
use eecs_k8s.Kiss.Cluster.{
  load_current_cluster, ClusterState, load, is_node_control_plane, is_joinable, is_new,
  get_control_planes, get_etcd_nodes, has_host,
}
use eecs_k8s.Kiss.Cluster.Queue.{is_joinable_unique}
use eecs_k8s.Kiss.Cluster.Etcd.{IsCandidate, candidates, HasHost, get_etcd_nodes_odd}
use eecs_k8s.Kiss.Cluster.Loading.{contains-load_control_planes}
use eecs_k8s.Kiss.Cluster.Leader.{get_control_planes_first}

abbrev spec : ℕ → BoxGroupRole → BoxSpec
spec uuid role = record {
  group = record { cluster_name = "edge"; role = role };
  machine = record { uuid = uuid };
  power = none;
}

abbrev node : ℕ → BoxGroupRole → BoxState → BoxCrd
node uuid role st = record {
  creation_timestamp = some uuid;
  verify_bind_group_label = none;
  spec = spec uuid role;
  status = some (record {
    state = st;
    access = record { primary = some (record { address = uuid; speed_mbps = none }) };
    bind_group = none;
    last_updated = 0;
  });
}

abbrev boxes : List BoxCrd
boxes = node 1 control_plane ready ∷ node 2 control_plane running ∷ node 3 compute ready ∷ []

abbrev view : ℕ → ClusterState
view uuid = load 3 boxes none (spec uuid control_plane)

first_is_joinable : is_joinable (view 1) ≡ true
unfolding is_joinable load Kiss.Box.role_eq eecs_k8s.Prelude.Sort.lex_leb Group.node_key
    Group.from_box
first_is_joinable = refl

first_is_control_plane : is_node_control_plane (view 1) ≡ true
unfolding is_node_control_plane load Kiss.Box.role_eq eecs_k8s.Prelude.Sort.lex_leb Group.node_key
    Group.from_box
first_is_control_plane = refl

-- The same machine, of which one description names its power supply.
abbrev powered : BoxSpec
powered = record (spec 1 control_plane) {
  power = some (record { address = none; power_type = ipmi });
}

abbrev powered_view : ClusterState
powered_view = load 3 boxes none powered

powered_is_joinable :
    (is_node_control_plane powered_view ≡ true) × (is_joinable powered_view ≡ true)
unfolding is_joinable load Kiss.Box.role_eq eecs_k8s.Prelude.Sort.lex_leb Group.node_key
    Group.from_box
powered_is_joinable = (refl, refl)

is_joinable_unique_example : (spec 1 control_plane).machine.uuid ≡ powered.machine.uuid
is_joinable_unique_example =
    is_joinable_unique 3 boxes (spec 1 control_plane) powered refl first_is_control_plane
      powered_is_joinable.0 first_is_joinable powered_is_joinable.1

get_control_planes_first_example :
    (n : ClusterBoxState) × (rest : List ClusterBoxState) × (get_control_planes (view 1) ≡ n ∷ rest)
    × (n.is_running ≡ true)
unfolding load Group.is_running Kiss.Box.role_eq eecs_k8s.Prelude.Sort.lex_leb Group.node_key
    Group.from_box has_host
get_control_planes_first_example = get_control_planes_first (view 1) refl

-- The running node stands first, though its UUID is the larger.
control_planes_of_view : map (λ n. n.uuid) (get_control_planes (view 1)) ≡ 2 ∷ 1 ∷ []
unfolding get_control_planes load Kiss.Box.role_eq eecs_k8s.Prelude.Sort.lex_leb Group.from_box
control_planes_of_view = refl

etcd_of_view : map (λ n. n.uuid) (get_etcd_nodes (view 1)) ≡ 1 ∷ []
unfolding get_etcd_nodes load Kiss.Box.role_eq eecs_k8s.Prelude.Sort.lex_leb Group.from_box
etcd_of_view = refl

not_new : is_new (view 1) ≡ false
unfolding is_new load Kiss.Box.role_eq eecs_k8s.Prelude.Sort.lex_leb Group.node_key Group.from_box
not_new = refl

candidates_named : All HasHost (candidates (view 1))
unfolding Group.to_vec load Kiss.Box.role_eq eecs_k8s.Prelude.Sort.lex_leb Group.from_box has_host
candidates_named = (refl, (refl, tt))

get_etcd_nodes_odd_example :
    ((length (get_etcd_nodes (view 1)) % 2 ≡ 1) ⊎ (length (get_etcd_nodes (view 1)) ≡ 0))
    × All (IsCandidate (view 1)) (get_etcd_nodes (view 1))
    × (0 < (view 1).etcd_nodes_max → length (get_etcd_nodes (view 1)) ≤ (view 1).etcd_nodes_max)
    × ((view 1).etcd_nodes_max ≡ 0
        → length (candidates (view 1)) ≤ length (get_etcd_nodes (view 1)) + 1)
get_etcd_nodes_odd_example = get_etcd_nodes_odd (view 1) candidates_named

-- A node whose address is not known is dropped last: of three members there are two left.
abbrev lost : BoxCrd → BoxCrd
lost b = record b {
  status = elim b.status [
    | none ↦ none
    | some st ↦ some (record st { access = record { primary = none } })
  ];
}

abbrev addressless : ClusterState
addressless =
    load 3
      (node 1 control_plane running
        ∷ node 2 control_plane running
        ∷ lost (node 3 control_plane running)
        ∷ [])
      none (spec 1 control_plane)

even_members : map (λ n. n.uuid) (get_etcd_nodes addressless) ≡ 1 ∷ 2 ∷ []
unfolding get_etcd_nodes load Kiss.Box.role_eq eecs_k8s.Prelude.Sort.lex_leb Group.from_box
even_members = refl

contains-load_control_planes_example :
    Group.contains (load_control_planes boxes "edge") 2
    ≡ any (λ b. is_control_plane_of "edge" b && b.spec.machine.uuid == 2) boxes
contains-load_control_planes_example = contains-load_control_planes boxes "edge" 2

abbrev current : ClusterState
current = record {
  etcd_nodes_max = 3;
  control_planes = load_control_planes boxes "edge";
  owner_group = record { cluster_name = "edge"; role = control_plane };
  owner_uuid = 2;
  workers = none;
}

current_lem : load_current_cluster 3 "edge" boxes none ≡ some current
unfolding load_current_cluster Kiss.Box.role_eq eecs_k8s.Prelude.Sort.lex_leb Group.node_key
    Group.from_box
current_lem = refl
