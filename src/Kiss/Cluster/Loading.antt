-- ===== src/Kiss/Cluster/Loading.antt =====
-- Loading keeps every control plane of the cluster, and no other box.
use eecs_k8s.Prelude.{
  ℕ, ◌≡◌, refl, ◌∙◌, Bool, true, false, ◌&&◌, ◌||◌, ◌==◌, String, List, [], ◌∷◌, arith,
}
use eecs_k8s.Prelude.Select.{filter, any}
use eecs_k8s.Prelude.Sort.{lex_leb, lex_leb-antisym}
use eecs_k8s.Kiss.Box.{BoxCrd}
use eecs_k8s.Kiss.Group
use eecs_k8s.Kiss.Group.{
  ClusterBoxState, Nodes, node_key, from_box, insert_node, collect_nodes, is_control_plane_of,
  load_control_planes,
}

-- Nodes with one key have one UUID.
node_key-uuid : (a c : ClusterBoxState) → node_key a ≡ node_key c → a.uuid ≡ c.uuid
unfolding node_key
node_key-uuid a c h = cc

same_key-uuid :
    (a c : ClusterBoxState)
    → lex_leb (node_key a) (node_key c) ≡ true
    → lex_leb (node_key c) (node_key a) ≡ true
    → a.uuid ≡ c.uuid
same_key-uuid a c h k = node_key-uuid a c (lex_leb-antisym (node_key a) (node_key c) h k)

contains-insert_node :
    (k : ClusterBoxState) (v : BoxCrd) (m : Nodes) (u : ℕ)
    → Group.contains (insert_node k v m) u ≡ (k.uuid == u || Group.contains m u)
unfolding Group.contains insert_node any
contains-insert_node k v [] u = refl
contains-insert_node k v ((j, w) ∷ m) u =
    ground (arith, same_key-uuid k j, contains-insert_node k v m u)

contains-collect_nodes :
    (bs : List BoxCrd) (m : Nodes) (u : ℕ)
    → Group.contains (collect_nodes bs m) u
      ≡ (any (λ b. b.spec.machine.uuid == u) bs || Group.contains m u)
unfolding collect_nodes any from_box
contains-collect_nodes [] m u = refl
contains-collect_nodes (b ∷ bs) m u = ground (
  arith,
  contains-collect_nodes bs (insert_node (from_box b) b m) u,
  contains-insert_node (from_box b) b m u,
)

any-filter :
    {A : Type 0} (p q : A → Bool) (xs : List A) → any q (filter p xs) ≡ any (λ x. p x && q x) xs
unfolding any filter
any-filter p q [] = refl
any-filter p q (x ∷ xs) = ground (arith, any-filter p q xs)

-- A machine is among the loaded control planes exactly if a box with its UUID is a control plane of
-- the cluster; boxes that the ordered map drops as duplicates lose no machine.
pub contains-load_control_planes :
    (boxes : List BoxCrd) (cluster_name : String) (u : ℕ)
    → Group.contains (load_control_planes boxes cluster_name) u
      ≡ any (λ b. is_control_plane_of cluster_name b && b.spec.machine.uuid == u) boxes
unfolding load_control_planes
contains-load_control_planes boxes cluster_name u =
    contains-collect_nodes (filter (is_control_plane_of cluster_name) boxes) [] u
    ∙ or_none
        (any (λ b. b.spec.machine.uuid == u) (filter (is_control_plane_of cluster_name) boxes))
    ∙ any-filter (is_control_plane_of cluster_name) (λ b. b.spec.machine.uuid == u) boxes
  where
    or_none : (c : Bool) → (c || Group.contains [] u) ≡ c
    or_none true = refl
    or_none false = unfold Group.contains any in refl
