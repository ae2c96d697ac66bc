-- ===== src/Kiss/Cluster/Queue.antt =====
-- The queue of joining nodes: one control plane at a time, and workers after them.
use eecs_k8s.Prelude.{
  ℕ, ◌≡◌, ◌≢◌, ◌⊎◌, Bool, true, false, none, some, List, [], arith, All, ◌==◌, ==→eq, not, length,
  Bool-cases, Option-cases, inl, inr,
}
use eecs_k8s.Prelude.Select.{find, find-holds, count_if, count_if-All}
use eecs_k8s.Kiss.Box.{BoxSpec, BoxCrd, is_default}
use eecs_k8s.Kiss.Group
use eecs_k8s.Kiss.Group.{ClusterBoxState, Nodes}
use eecs_k8s.Kiss.Cluster.{ClusterState, load, is_node_control_plane, is_joinable}

-- Of one set of nodes at most one is next.
is_next_unique :
    (nodes : Nodes) (u v : ℕ) → Group.is_next nodes u ≡ true → Group.is_next nodes v ≡ true → u ≡ v
unfolding Group.is_next
is_next_unique nodes u v h k = ground arith

-- Mutual exclusion: two control planes of one cluster that are judged from the same list of boxes
-- and may both join are the same machine.
pub is_joinable_unique :
    (etcd_nodes_max : ℕ) (boxes : List BoxCrd) (a c : BoxSpec)
    → a.group.cluster_name ≡ c.group.cluster_name
    → is_node_control_plane (load etcd_nodes_max boxes none a) ≡ true
    → is_node_control_plane (load etcd_nodes_max boxes none c) ≡ true
    → is_joinable (load etcd_nodes_max boxes none a) ≡ true
    → is_joinable (load etcd_nodes_max boxes none c) ≡ true
    → a.machine.uuid ≡ c.machine.uuid
unfolding is_joinable load
is_joinable_unique m boxes a c e pa pc ja jc =
    is_next_unique (Group.load_control_planes boxes a.group.cluster_name) a.machine.uuid
      c.machine.uuid (ground arith) (rw e (ground arith))

next_node :
    (nodes : Nodes) (u : ℕ)
    → Group.is_next nodes u ≡ true
    → (node : ClusterBoxState × BoxCrd) × (find (λ n. not n.0.is_running) nodes ≡ some node)
      × (node.0.uuid ≡ u)
next_node nodes u h = elim (Option-cases (find (λ n. not n.0.is_running) nodes)) [
  | inl e ↦ absurd (unfold Group.is_next in ground arith)
  | inr (n, e) ↦ (n, e, unfold Group.is_next in ground arith)
]

guards :
    (s : ClusterState)
    → is_node_control_plane s ≡ true
    → is_joinable s ≡ true
    → ((Group.num_ready s.control_planes == length s.control_planes) ≡ true)
      × (Group.is_next s.control_planes s.owner_uuid ≡ true)
guards s p j = unfold is_joinable in ground arith

not-true : {b : Bool} → not b ≡ true → b ≡ false
not-true {b} h = ground arith

-- A control plane that may join finds every control plane ready, and is the first of them that
-- does not run.
pub is_joinable-control_plane :
    (s : ClusterState)
    → is_node_control_plane s ≡ true
    → is_joinable s ≡ true
    → (node : ClusterBoxState × BoxCrd) × (find (λ n. not n.0.is_running) s.control_planes
        ≡ some node)
      × (node.0.uuid ≡ s.owner_uuid)
      × (node.0.is_running ≡ false)
      × All (λ n. n.0.is_ready ≡ true) s.control_planes
is_joinable-control_plane s p j =
    let (node, found, owner) = next_node s.control_planes s.owner_uuid (guards s p j).1 in
    (
      node,
      found,
      owner,
      not-true (find-holds (λ n. not n.0.is_running) s.control_planes node found),
      unfold Group.num_ready in
          count_if-All (λ n. n.0.is_ready) s.control_planes
            (==→eq (Group.num_ready s.control_planes) (length s.control_planes) (guards s p j).0),
    )

-- A node that is no control plane may join only when every control plane runs and, outside the
-- default cluster, there is one.
pub is_joinable-worker :
    (s : ClusterState)
    → is_node_control_plane s ≡ false
    → is_joinable s ≡ true
    → All (λ n. n.0.is_running ≡ true) s.control_planes
      × ((is_default s.owner_group ≡ true) ⊎ (s.control_planes ≢ []))
unfolding is_joinable Group.num_running
is_joinable-worker s p j = (
  count_if-All (λ n. n.0.is_running) s.control_planes (ground arith),
  elim (Bool-cases (is_default s.owner_group)) [
    | inl d ↦ inl d
    | inr d ↦ inr (λ e. some_run (unfold is_joinable in ground arith) e)
  ],
)
  where
    some_run : (Group.num_running s.control_planes == 0) ≡ false → s.control_planes ≡ [] → ⊥
    some_run h e = unfold Group.num_running count_if in cc (rw e at h)
