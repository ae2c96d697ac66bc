-- ===== src/Kiss/Cluster/Etcd.antt =====
-- The etcd members of a cluster are an odd number of nodes, within the configured bound.
use eecs_k8s.Prelude.{
  ℕ, ◌+◌, ◌%◌, ◌≤◌, ◌<◌, ◌≡◌, refl, ◌⊎◌, true, Bool, ◌||◌, List, [], ◌∷◌, arith, All, All-map_list,
  length, length-take, take-All, ◌==◌,
}
use eecs_k8s.Prelude.Select.{filter, filter-All}
use eecs_k8s.Prelude.Sort.{sort_by_key, sort_by_key-length, sort_by_key-All, option_key}
use eecs_k8s.Kiss.Group
use eecs_k8s.Kiss.Group.{ClusterBoxState, Nodes, running_with, node_key}
use eecs_k8s.Kiss.Cluster.{
  has_host, get_nodes, ClusterState, get_etcd_nodes, sort_nodes_by_date, truncate, pop, odd_prefix,
}

length-pop : (x : ClusterBoxState) (xs : List ClusterBoxState) → length (pop (x ∷ xs)) ≡ length xs
unfolding pop
length-pop x [] = refl
length-pop x (y ∷ ys) = omega (arith, length-pop y ys)

pop-All : (P : ClusterBoxState → Type 0) (xs : List ClusterBoxState) → All P xs → All P (pop xs)
unfolding pop
pop-All P [] h = tt
pop-All P (x ∷ []) h = tt
pop-All P (x ∷ y ∷ ys) h = (h.0, pop-All P (y ∷ ys) h.1)

odd_prefix-length :
    (xs : List ClusterBoxState)
    → ((length (odd_prefix xs) % 2 ≡ 1) ⊎ (length (odd_prefix xs) ≡ 0))
      × (length (odd_prefix xs) ≤ length xs)
      × (length xs ≤ length (odd_prefix xs) + 1)
unfolding odd_prefix pop
odd_prefix-length [] = ground arith
odd_prefix-length (x ∷ xs) = ground (arith, length-pop x xs)

odd_prefix-All :
    (P : ClusterBoxState → Type 0) (xs : List ClusterBoxState) → All P xs → All P (odd_prefix xs)
unfolding odd_prefix
odd_prefix-All P xs h = ground (arith, pop-All P xs h)

truncate-All :
    (P : ClusterBoxState → Type 0) (n : ℕ) (xs : List ClusterBoxState)
    → All P xs
    → All P (truncate n xs)
unfolding truncate
truncate-All P n xs h = ground (arith, take-All P n xs h)

truncate-length : (n : ℕ) (xs : List ClusterBoxState) → 0 < n → length (truncate n xs) ≤ n
unfolding truncate
truncate-length n xs h = ground (arith, length-take n xs)

-- The nodes that etcd is chosen from run, or are the node that joins.
abbrev pub IsCandidate : ClusterState → ClusterBoxState → Type 0
IsCandidate s n = (n.is_running || s.owner_uuid == n.uuid) ≡ true

to_vec-IsCandidate :
    (s : ClusterState)
    → All (IsCandidate s) (Group.to_vec s.control_planes (running_with s.owner_uuid))
unfolding Group.to_vec
to_vec-IsCandidate s =
    All-map_list (IsCandidate s) (λ n. n.0)
      (Group.iter s.control_planes (running_with s.owner_uuid))
      (sort_by_key-All (λ n. option_key n.0.created_at ∷ node_key n.0) (λ n. IsCandidate s n.0)
        (filter (λ n. n.0.is_running || s.owner_uuid == n.0.uuid) s.control_planes)
        (filter-All (λ n. n.0.is_running || s.owner_uuid == n.0.uuid) s.control_planes))

filter-whole :
    {A : Type 0} (p : A → Bool) (xs : List A) → All (λ x. p x ≡ true) xs → filter p xs ≡ xs
unfolding filter
filter-whole p [] h = refl
filter-whole p (x ∷ xs) h = rw (h.0, filter-whole p xs h.1) refl

-- The control planes that etcd members are chosen from.
abbrev pub candidates : ClusterState → List ClusterBoxState
candidates s = Group.to_vec s.control_planes (running_with s.owner_uuid)

-- The host of a node is known.
abbrev pub HasHost : ClusterBoxState → Type 0
HasHost n = has_host n ≡ true

module _ (s : ClusterState) where
  cut : List ClusterBoxState
  cut = truncate s.etcd_nodes_max (candidates s)

  nothing_dropped :
      All HasHost (candidates s)
      → get_etcd_nodes s ≡ sort_by_key sort_nodes_by_date (odd_prefix cut)
  unfolding get_etcd_nodes get_nodes cut
  nothing_dropped h = filter-whole has_host (sort_by_key sort_nodes_by_date (odd_prefix cut)) (
      sort_by_key-All sort_nodes_by_date HasHost (odd_prefix cut)
        (odd_prefix-All HasHost cut (truncate-All HasHost s.etcd_nodes_max (candidates s) h)))

  members : All HasHost (candidates s) → All (IsCandidate s) (get_etcd_nodes s)
  unfolding cut
  members h = rw (nothing_dropped h) (
      sort_by_key-All sort_nodes_by_date (IsCandidate s) (odd_prefix cut) (
        odd_prefix-All (IsCandidate s) cut
          (truncate-All (IsCandidate s) s.etcd_nodes_max (candidates s) (to_vec-IsCandidate s))))

  -- Where every candidate has an address, the etcd members are an odd number of nodes, or none; they
  -- run, or are the node that joins; they are at most `etcd_nodes_max`, where that is set; and
  -- where it is not, at most one candidate is left out.
  pub get_etcd_nodes_odd :
      All HasHost (candidates s)
      → ((length (get_etcd_nodes s) % 2 ≡ 1) ⊎ (length (get_etcd_nodes s) ≡ 0))
        × All (IsCandidate s) (get_etcd_nodes s)
        × (0 < s.etcd_nodes_max → length (get_etcd_nodes s) ≤ s.etcd_nodes_max)
        × (s.etcd_nodes_max ≡ 0 → length (candidates s) ≤ length (get_etcd_nodes s) + 1)
  get_etcd_nodes_odd named =
      let sorted : length (get_etcd_nodes s) ≡ length (odd_prefix cut) =
        rw (nothing_dropped named) (sort_by_key-length sort_nodes_by_date (odd_prefix cut)) in
      let parity = odd_prefix-length cut in
      (
        omega (arith, sorted, parity.0),
        members named,
        λ h. omega (arith, sorted, parity.1, cut_length h),
        λ h. omega (arith, sorted, parity.2, whole h),
      )
    where
      cut_length : 0 < s.etcd_nodes_max → length cut ≤ s.etcd_nodes_max
      cut_length h = unfold cut in truncate-length s.etcd_nodes_max (candidates s) h

      whole : s.etcd_nodes_max ≡ 0 → length (candidates s) ≡ length cut
      whole h = unfold cut in unfold truncate in ground arith
