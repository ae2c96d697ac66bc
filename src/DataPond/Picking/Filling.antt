-- ===== src/DataPond/Picking/Filling.antt =====
-- What one replica takes of the devices, and what it still lacks at the end.
use eecs_k8s.Prelude.{
  ◌++◌, ℕ, ◌+◌, ◌*◌, ◌≤◌, ◌<◌, ◌≡◌, sym, ◌∙◌, ap, true, ◌==◌, List, [], ◌∷◌, map, arith, length,
  All, Bool-cases, inl, inr,
}
use eecs_k8s.Prelude.I64.{add, sub, min, modulus, half}
use eecs_k8s.DataPond.Binding.{VolumeBindingClaim, available}
use eecs_k8s.DataPond.Candidates.{key_of}
use eecs_k8s.Prelude.{refl}
use eecs_k8s.DataPond.Picking.{fill}
use eecs_k8s.DataPond.Picking.Spec.{Fits, payload, shortfall, share, all_served, all_short, IsSane}
use eecs_k8s.DataPond.Picking.Deficit.{
  reserved-Fits, key_of-reserved, next_lack, min-lt, next_lack-le, available-InRange, reserved,
  payload-reserved, fill-cons,
}

-- What a replica that lacked `d` bytes comes to.
pub record Lacks (d total : ℕ) (bs : List VolumeBindingClaim)
    (f : List VolumeBindingClaim × List VolumeBindingClaim × ℕ) : Type 0 where
  pub lacking : ℕ
  pub served : all_served (map share f.0) + lacking ≡ d + all_short (map share f.0)
  pub counted : f.2 ≡ add total (sub d lacking)
  pub bounded : lacking + 4_194_304 * length f.1 ≤ d + 4_194_304 * length bs
  pub sane : All IsSane f.1
  pub fitting : All Fits f.0
  pub taken : map key_of f.0 ++ map key_of f.1 ≡ map key_of bs

pub add_zero : (m : ℕ) → m < modulus → add m 0 ≡ m
unfolding add
add_zero m h = omega arith

pub sub_zero : (d : ℕ) → d < half → sub d 0 ≡ d
unfolding sub
sub_zero d h = omega arith

sub-sub : (d m e : ℕ) → d < half → m < modulus → e < half → add m (sub (sub d m) e) ≡ sub d e
unfolding add sub
sub-sub d m e h k l = omega arith

add_assoc : (a b c : ℕ) → add (add a b) c ≡ add a (add b c)
unfolding add
add_assoc a b c = omega arith

sub-zero_eq : (d m : ℕ) → d < half → m < modulus → (sub d m == 0) ≡ true → m ≡ d
unfolding sub
sub-zero_eq d m h k e = ground arith

pub sub_self : (d : ℕ) → d < half → sub d d ≡ 0
unfolding sub
sub_self d h = omega arith

pub add-lt : (a b : ℕ) → add a b < modulus
unfolding add
add-lt a b = omega arith

served_more :
    (b : VolumeBindingClaim) (bs : List VolumeBindingClaim) (d n l : ℕ)
    → payload b + n ≡ d + shortfall b
    → all_served (map share bs) + l ≡ n + all_short (map share bs)
    → all_served (map share (b ∷ bs)) + l ≡ d + all_short (map share (b ∷ bs))
unfolding all_served all_short share
served_more b bs d n l h k = omega (arith, h, k)

nothing_served : (d : ℕ) → all_served (map share []) + d ≡ d + all_short (map share [])
unfolding all_served all_short
nothing_served d = omega arith

served_none : all_served (map share []) + 0 ≡ 0 + all_short (map share [])
unfolding all_served all_short
served_none = refl

zero_eq : (n : ℕ) → (n == 0) ≡ true → n ≡ 0
zero_eq n h = ground arith

pub fill-Lacks :
    (required d total : ℕ) (bs : List VolumeBindingClaim)
    → required < half
    → d + 4_194_304 * length bs < half
    → total < modulus
    → All IsSane bs
    → Lacks d total bs (fill required (sub required d) total bs)
unfolding fill
fill-Lacks required d total [] h k t s =
    let k' : d < half = omega arith in
    record {
      lacking = d;
      served = nothing_served d;
      counted = rw (sub_self d k') (sym (add_zero total t));
      bounded = omega arith;
      sane = tt;
      fitting = tt;
      taken = refl;
    }
fill-Lacks required d total (b ∷ bs) h k t s =
    let k' : d < half = omega arith in
    let m = min-lt (available b) d (available-InRange b s.0) k' in
    let n = next_lack-le (available b) d (available-InRange b s.0) k' in
    let p = payload-reserved b d s.0 k' in
    rw (fill-cons required d total b bs h (omega arith) s.0)
      (elim (Bool-cases (next_lack d (available b) == 0)) [
        | inl e ↦
            let all = sub-zero_eq d (min (available b) d) k' m e in
            rw e (record {
              lacking = 0;
              served =
                  served_more (reserved b d) [] d 0 0
                    (rw (sym (zero_eq (next_lack d (available b)) e)) p) served_none;
              counted = rw (sub_zero d k') (ap (add total) all);
              bounded = omega arith;
              sane = s.1;
              fitting = (reserved-Fits b d s.0 k', tt);
              taken = ap (λ k. k ∷ map key_of bs) (key_of-reserved b d);
            })
        | inr e ↦
            let r =
              fill-Lacks required (next_lack d (available b)) (add total (min (available b) d)) bs h
                (omega arith) (add-lt total (min (available b) d)) s.1 in
            let l : r.lacking < half = omega (arith, r.bounded) in
            let both = sub-sub d (min (available b) d) r.lacking k' m l in
            rw e (record {
              lacking = r.lacking;
              served =
                  served_more (reserved b d) _ d (next_lack d (available b)) r.lacking p r.served;
              counted = rw r.counted (
                  add_assoc total (min (available b) d) (sub (next_lack d (available b)) r.lacking)
                  ∙ ap (add total) both);
              bounded = omega (arith, r.bounded);
              sane = r.sane;
              fitting = (reserved-Fits b d s.0 k', r.fitting);
              taken = rw (key_of-reserved b d) (ap (λ ks. key_of b ∷ ks) r.taken);
            })
      ])
