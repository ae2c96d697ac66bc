-- ===== src/Kiss/Cluster/Current.antt =====
-- The current cluster is seen by one of its running control planes.
use eecs_k8s.Prelude.{
  some-injective, Option, some, ℕ, ◌≡◌, Bool, true, false, ==-refl, String, Option, some, List, [],
  ◌∷◌, All, All-map, arith, Bool-cases, inl, inr,
}
use eecs_k8s.Prelude.Select.{filter, any}
use eecs_k8s.Prelude.Sort.{sort_by_key-All}
use eecs_k8s.Kiss.Box.{BoxCrd}
use eecs_k8s.Kiss.Group
use eecs_k8s.Kiss.Group.{ClusterBoxState, Nodes, only_running, load_control_planes}
use eecs_k8s.Kiss.Cluster.{
  current_of, ClusterState, is_node_control_plane, is_new, load_current_cluster,
}

-- A node of the list, some node of which runs.
abbrev IsSeen : Nodes → ClusterBoxState × BoxCrd → Type 0
IsSeen nodes n = (Group.contains nodes n.0.uuid ≡ true) × (Group.is_running nodes ≡ true)

filter-IsSeen :
    (f : ClusterBoxState × BoxCrd → Bool) (nodes : Nodes)
    → ((n : ClusterBoxState × BoxCrd) → f n ≡ true → n.0.is_running ≡ true)
    → All (IsSeen nodes) (filter f nodes)
unfolding filter any Group.contains Group.is_running
filter-IsSeen f [] h = tt
filter-IsSeen f (n ∷ nodes) h = elim (Bool-cases (f n)) [
  | inl t ↦
      rw t (head t, All-map (IsSeen nodes) (IsSeen (n ∷ nodes)) _ later (filter-IsSeen f nodes h))
  | inr o ↦ rw o (All-map (IsSeen nodes) (IsSeen (n ∷ nodes)) _ later (filter-IsSeen f nodes h))
]
  where
    head : f n ≡ true → IsSeen (n ∷ nodes) n
    head t = ground (arith, h n t, ==-refl n.0.uuid)

    later : (m : ClusterBoxState × BoxCrd) → IsSeen nodes m → IsSeen (n ∷ nodes) m
    later m k = ground (arith, k.0, k.1)

iter-IsSeen : (nodes : Nodes) → All (IsSeen nodes) (Group.iter nodes only_running)
unfolding Group.iter
iter-IsSeen nodes =
    sort_by_key-All _ (IsSeen nodes) _
      (filter-IsSeen _ nodes (λ n h. unfold Group.filter_contains in ground (arith, h)))

current_of-is_new :
    (max : ℕ) (cluster_name : String) (nodes : Nodes) (workers : Option (List BoxCrd))
    (running : Nodes) (s : ClusterState)
    → All (IsSeen nodes) running
    → current_of max cluster_name nodes workers running ≡ some s
    → (is_node_control_plane s ≡ true) × (is_new s ≡ false)
unfolding current_of is_node_control_plane is_new
current_of-is_new max cluster_name nodes workers [] s h e = cc
current_of-is_new max cluster_name nodes workers (owner ∷ others) s h e =
    rw (← some-injective _ s e) (h.0.0, ground (arith, h.0.1))

-- The current cluster, where there is one, has its owner among its control planes, and is not new.
pub load_current_cluster-is_new :
    (max : ℕ) (cluster_name : String) (boxes : List BoxCrd) (workers : Option (List BoxCrd))
    (s : ClusterState)
    → load_current_cluster max cluster_name boxes workers ≡ some s
    → (is_node_control_plane s ≡ true) × (is_new s ≡ false)
unfolding load_current_cluster
load_current_cluster-is_new max cluster_name boxes workers s e =
    current_of-is_new max cluster_name (load_control_planes boxes cluster_name) workers
      (Group.iter (load_control_planes boxes cluster_name) only_running) s
      (iter-IsSeen (load_control_planes boxes cluster_name)) e
