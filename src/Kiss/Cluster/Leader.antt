-- ===== src/Kiss/Cluster/Leader.antt =====
-- The first control plane that is handed to kubespray is a running one.
use eecs_k8s.Prelude.{
  ℕ, ◌<◌, ◌≡◌, refl, ◌∙◌, true, false, Bool, Bool-cases, inl, inr, ◌&&◌, ◌||◌, List, [], ◌∷◌, arith,
  All, map,
}
use eecs_k8s.Prelude.Select.{filter, any, count_if}
use eecs_k8s.Prelude.Sort.{
  sort_by_key, IsSorted, lex_leb, option_key, sort_by_key, sort_by_key-IsSorted,
  sort_by_key-count_if,
}
use eecs_k8s.Kiss.Group
use eecs_k8s.Kiss.Group.{ClusterBoxState, ClusterBoxFilter, Nodes, running_with, node_key}
use eecs_k8s.Kiss.Cluster.{
  has_host, get_nodes, ClusterState, get_control_planes, sort_nodes_by_name,
}

-- A node that runs, and whose host is known.
abbrev pub is_named : ClusterBoxState → Bool
is_named n = n.is_running && has_host n

abbrev running_count : List ClusterBoxState → ℕ
running_count = count_if (λ n. n.is_running)

-- Nodes behind one that does not run do not run.
after_stopped :
    (n : ClusterBoxState) (ns : List ClusterBoxState)
    → n.is_running ≡ false
    → All (λ m. lex_leb (sort_nodes_by_name n) (sort_nodes_by_name m) ≡ true) ns
    → running_count ns ≡ 0
unfolding count_if lex_leb sort_nodes_by_name
after_stopped n [] e h = refl
after_stopped n (m ∷ ns) e h = ground (arith, after_stopped n ns e h.1)

first_runs :
    (ns : List ClusterBoxState)
    → IsSorted (λ x y. lex_leb (sort_nodes_by_name x) (sort_nodes_by_name y)) ns
    → 0 < running_count ns
    → (n : ClusterBoxState) × (rest : List ClusterBoxState) × (ns ≡ n ∷ rest)
      × (n.is_running ≡ true)
unfolding count_if
first_runs [] s h = absurd (omega arith)
first_runs (n ∷ ns) s h = (n, ns, refl, ground (arith, after_stopped n ns))

count_if-map :
    (nodes : Nodes) → count_if is_named (map (λ n. n.0) nodes) ≡ count_if (λ n. is_named n.0) nodes
unfolding count_if
count_if-map [] = refl
count_if-map (n ∷ nodes) = omega (arith, count_if-map nodes)

count_if-filter :
    (f : ClusterBoxFilter) (nodes : Nodes)
    → count_if
        (λ n. is_named n.0)
        (filter (λ n. n.0.is_running || Group.filter_contains f n.0.uuid) nodes)
      ≡ count_if (λ n. is_named n.0) nodes
unfolding count_if filter
count_if-filter f [] = refl
count_if-filter f (n ∷ nodes) = ground (arith, count_if-filter f nodes)

-- A view keeps every running node.
named-to_vec :
    (nodes : Nodes) (f : ClusterBoxFilter)
    → count_if is_named (Group.to_vec nodes f) ≡ count_if (λ n. is_named n.0) nodes
unfolding Group.to_vec
named-to_vec nodes f =
    count_if-map (Group.iter nodes f)
    ∙ sort_by_key-count_if (λ n. option_key n.0.created_at ∷ node_key n.0) (λ n. is_named n.0)
        (filter (λ n. n.0.is_running || Group.filter_contains f n.0.uuid) nodes)
    ∙ count_if-filter f nodes

any-count_if : {A : Type 0} (p : A → Bool) (xs : List A) → any p xs ≡ true → 0 < count_if p xs
unfolding count_if any
any-count_if p [] h = cc
any-count_if p (x ∷ xs) h = ground (arith, any-count_if p xs)

-- Dropping the nodes without a host keeps those that run and have one, and the order.
running_count-filter :
    (ns : List ClusterBoxState) → running_count (filter has_host ns) ≡ count_if is_named ns
unfolding count_if filter
running_count-filter [] = refl
running_count-filter (n ∷ ns) = ground (arith, running_count-filter ns)

filter_keeps :
    {A : Type 0} (P : A → Type 0) (p : A → Bool) (xs : List A) → All P xs → All P (filter p xs)
unfolding filter
filter_keeps P p [] h = tt
filter_keeps P p (x ∷ xs) h = elim (Bool-cases (p x)) [
  | inl e ↦ rw e (h.0, filter_keeps P p xs h.1)
  | inr e ↦ rw e (filter_keeps P p xs h.1)
]

filter-IsSorted :
    {A : Type 0} (le : A → A → Bool) (p : A → Bool) (xs : List A)
    → IsSorted le xs
    → IsSorted le (filter p xs)
unfolding filter
filter-IsSorted le p [] h = tt
filter-IsSorted le p (x ∷ xs) h = elim (Bool-cases (p x)) [
  | inl e ↦ rw e (filter_keeps (λ y. le x y ≡ true) p xs h.0, filter-IsSorted le p xs h.1)
  | inr e ↦ rw e (filter-IsSorted le p xs h.1)
]

-- If any control plane of the cluster runs and has an address, the list of control planes for
-- kubespray is not empty and begins with a running node, whatever node is joining.
pub get_control_planes_first :
    (s : ClusterState)
    → any (λ n. is_named n.0) s.control_planes ≡ true
    → (n : ClusterBoxState) × (rest : List ClusterBoxState) × (get_control_planes s ≡ n ∷ rest)
      × (n.is_running ≡ true)
unfolding get_control_planes get_nodes
get_control_planes_first s h =
    let view = Group.to_vec s.control_planes (running_with s.owner_uuid) in
    let sorted = sort_by_key sort_nodes_by_name view in
    let kept : count_if is_named sorted ≡ count_if is_named view =
      sort_by_key-count_if sort_nodes_by_name is_named view in
    let some_first : 0 < running_count (filter has_host sorted) = omega (
      arith,
      kept,
      running_count-filter sorted,
      named-to_vec s.control_planes (running_with s.owner_uuid),
      any-count_if (λ n. is_named n.0) s.control_planes h,
    ) in
    first_runs (filter has_host sorted)
      (filter-IsSorted (λ x y. lex_leb (sort_nodes_by_name x) (sort_nodes_by_name y)) has_host
        sorted (sort_by_key-IsSorted sort_nodes_by_name view))
      some_first
