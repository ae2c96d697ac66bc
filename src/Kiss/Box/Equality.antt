-- ===== src/Kiss/Box/Equality.antt =====
-- The derived equalities of the box types decide equality.
use eecs_k8s.Prelude.{◌≢◌, false, ◌≡◌, true, arith, eq_iff, eq_refl, ==-refl}
use eecs_k8s.Kiss.Box.{
  BoxState, BoxGroupRole, BoxGroupSpec, state_index, role_index, state_eq, role_eq, group_eq,
}

pub state_eq→eq : (a b : BoxState) → state_eq a b ≡ true → a ≡ b
unfolding state_eq
state_eq→eq a b h = ground arith

pub role_eq→eq : (a b : BoxGroupRole) → role_eq a b ≡ true → a ≡ b
unfolding role_eq
role_eq→eq a b h = ground arith

pub role_eq_refl : (a : BoxGroupRole) → role_eq a a ≡ true
unfolding role_eq
role_eq_refl a = ==-refl (role_index a)

pub group_eq→eq : (a b : BoxGroupSpec) → group_eq a b ≡ true → a ≡ b
unfolding group_eq
group_eq→eq a b h = ground (arith, eq_iff a.cluster_name b.cluster_name, role_eq→eq a.role b.role)

pub group_eq_refl : (a : BoxGroupSpec) → group_eq a a ≡ true
unfolding group_eq
group_eq_refl a = ground (arith, eq_refl a.cluster_name, role_eq_refl a.role)

pub state_ne : {a b : BoxState} → state_eq a b ≡ false → a ≢ b
unfolding state_eq
state_ne {a} {b} h e = ground (arith, ==-refl (state_index a))
