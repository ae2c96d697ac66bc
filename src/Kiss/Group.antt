-- ===== src/Kiss/Group.antt =====
-- crates/openark-kiss-ansible/src/cluster.rs: `ClusterBoxState`, `ClusterBoxGroup` and its filter.
use eecs_k8s.Prelude.{
  ℕ, String, Bool, true, false, not, ◌&&◌, ◌||◌, Option, none, some, List, [], ◌∷◌, map, str_eq,
  ◌==◌, length, if◌then◌else◌,
}
use eecs_k8s.Prelude.Select.{filter, any, find, count_if}
use eecs_k8s.Prelude.Sort.{lex_leb, option_key, bool_key, sort_by_key}
use eecs_k8s.Kiss.Box.{BoxState, BoxCrd, ready, running, control_plane, role_eq}

-- The host name is the text of the UUID: a number here as there.
pub record ClusterBoxState : Type 0 where
  pub created_at : Option ℕ
  pub hostname : ℕ
  pub ip : Option ℕ
  pub is_ready : Bool
  pub is_running : Bool
  pub uuid : ℕ

abbrev is_ready_state : BoxState → Bool
is_ready_state ready = true
is_ready_state running = true
is_ready_state _ = false

abbrev is_running_state : BoxState → Bool
is_running_state running = true
is_running_state _ = false

unfoldable pub from_box : BoxCrd → ClusterBoxState
from_box object = record {
  created_at = object.creation_timestamp;
  hostname = object.spec.machine.uuid;
  ip = elim object.status [
    | none ↦ none
    | some status ↦ elim status.access.primary [
      | none ↦ none
      | some interface ↦ some interface.address
    ]
  ];
  is_ready = elim object.status [ none ↦ false | some status ↦ is_ready_state status.state ];
  is_running = elim object.status [ none ↦ false | some status ↦ is_running_state status.state ];
  uuid = object.spec.machine.uuid;
}

-- The host name and the address, of which the text of the host is made: none without an address.
unfoldable pub get_host : ClusterBoxState → Option (ℕ × ℕ)
get_host node = elim node.ip [ none ↦ none | some ip ↦ some (node.hostname, ip) ]

-- The key of the derived `Ord`.
unfoldable pub node_key : ClusterBoxState → List ℕ
node_key node =
    option_key node.created_at
    ∷ node.hostname
    ∷ option_key node.ip
    ∷ bool_key node.is_ready
    ∷ bool_key node.is_running
    ∷ node.uuid
    ∷ []

-- `BTreeMap<ClusterBoxState, BoxCrd>`: sorted by key; a second value for a key replaces the first.
abbrev pub Nodes : Type 0
Nodes = List (ClusterBoxState × BoxCrd)

unfoldable pub insert_node : ClusterBoxState → BoxCrd → Nodes → Nodes
insert_node k v [] = (k, v) ∷ []
insert_node k v ((j, w) ∷ m) =
    if lex_leb (node_key k) (node_key j)
    then (if lex_leb (node_key j) (node_key k) then (j, v) ∷ m else (k, v) ∷ (j, w) ∷ m)
    else (j, w) ∷ insert_node k v m

unfoldable pub collect_nodes : List BoxCrd → Nodes → Nodes
unfolding insert_node
collect_nodes [] m = m
collect_nodes (b ∷ bs) m = collect_nodes bs (insert_node (from_box b) b m)

unfoldable pub is_control_plane_of : String → BoxCrd → Bool
is_control_plane_of cluster_name b =
    str_eq b.spec.group.cluster_name cluster_name && role_eq b.spec.group.role control_plane

unfoldable pub is_worker_of : String → BoxCrd → Bool
is_worker_of cluster_name b =
    str_eq b.spec.group.cluster_name cluster_name && not (role_eq b.spec.group.role control_plane)

unfoldable pub load_control_planes : List BoxCrd → String → Nodes
unfolding filter collect_nodes is_control_plane_of
load_control_planes boxes cluster_name =
    collect_nodes (filter (is_control_plane_of cluster_name) boxes) []

unfoldable pub load_worker_nodes : List BoxCrd → String → Nodes
unfolding filter collect_nodes is_worker_of
load_worker_nodes boxes cluster_name = collect_nodes (filter (is_worker_of cluster_name) boxes) []

pub data ClusterBoxFilter : Type 0 where
  only_running : ClusterBoxFilter
  running_with : ℕ → ClusterBoxFilter

unfoldable pub filter_contains : ClusterBoxFilter → ℕ → Bool
filter_contains only_running target = false
filter_contains (running_with uuid) target = uuid == target

unfoldable pub contains : Nodes → ℕ → Bool
unfolding any
contains nodes uuid = any (λ n. n.0.uuid == uuid) nodes

unfoldable pub is_next : Nodes → ℕ → Bool
unfolding find
is_next nodes uuid = elim (find (λ n. not n.0.is_running) nodes) [
  | none ↦ false
  | some n ↦ n.0.uuid == uuid
]

unfoldable pub is_running : Nodes → Bool
unfolding any
is_running nodes = any (λ n. n.0.is_running) nodes

unfoldable pub iter : Nodes → ClusterBoxFilter → Nodes
unfolding filter filter_contains sort_by_key node_key
iter nodes f =
    sort_by_key (λ n. option_key n.0.created_at ∷ node_key n.0)
      (filter (λ n. n.0.is_running || filter_contains f n.0.uuid) nodes)

unfoldable pub num_ready : Nodes → ℕ
unfolding count_if
num_ready = count_if (λ n. n.0.is_ready)

unfoldable pub num_running : Nodes → ℕ
unfolding count_if
num_running = count_if (λ n. n.0.is_running)

abbrev pub num_total : Nodes → ℕ
num_total = length

unfoldable pub to_vec : Nodes → ClusterBoxFilter → List ClusterBoxState
unfolding iter
to_vec nodes f = map (λ n. n.0) (iter nodes f)
