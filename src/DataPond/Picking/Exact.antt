-- ===== src/DataPond/Picking/Exact.antt =====
-- Each replica of a volume has the bytes that it requires.
use Prim.Native.Nat.{zero}
use native.Mathlib.Nat.{mul-suc, mul-zero}
use mathlib.Core.Path.{subst}
use eecs_k8s.Prelude.{◌++◌, ℕ, ◌+◌, ◌*◌, ◌≤◌, ◌<◌, ◌≡◌, ap, List, [], ◌∷◌, map, arith, length, All}
use eecs_k8s.Prelude.I64.{add, sub, modulus, half}
use eecs_k8s.DataPond.Binding.{VolumeBindingClaim}
use eecs_k8s.DataPond.Candidates.{key_of, DeviceKey}
use eecs_k8s.Prelude.{All-append}
use eecs_k8s.DataPond.Picking.{pick, suc, fill}
use eecs_k8s.DataPond.Picking.Spec.{Fits, replica, done, share, Replicated, IsSane}
use eecs_k8s.Prelude.{refl, ap}
use eecs_k8s.DataPond.Picking.Filling.{Lacks, fill-Lacks, add-lt, sub_self}

fill_start :
    (required total : ℕ) (bs : List VolumeBindingClaim)
    → required < half
    → required + 4_194_304 * length bs < half
    → total < modulus
    → All IsSane bs
    → Lacks required total bs (fill required 0 total bs)
fill_start required total bs h k t s =
    subst (λ f. Lacks required total bs (fill required f total bs)) (sub_self required h)
      (fill-Lacks required required total bs h k t s)

counted-lt :
    {d total : ℕ} {bs : List VolumeBindingClaim}
    {f : List VolumeBindingClaim × List VolumeBindingClaim × ℕ}
    → Lacks d total bs f
    → f.2 < modulus
counted-lt {d} {total} l = rw l.counted (add-lt total (sub d l.lacking))

zero_left : (a b : ℕ) → a + b ≡ 0 → a ≡ 0
zero_left a b h = omega arith

nothing_lacking : (a b l : ℕ) → l ≡ 0 → a + l ≡ b → a ≡ b
nothing_lacking a b l h k = omega (arith, h, k)

-- All the replicas: the bytes that are missing from the total, none exactly if each is full.
pub record Picks (required n total : ℕ) (bs : List VolumeBindingClaim)
    (p : List VolumeBindingClaim × ℕ) : Type 0 where
  pub missing : ℕ
  pub counted : p.1 ≡ sub (add total (required * n)) missing
  pub bounded : missing ≤ required * n + 4_194_304 * length bs
  pub fitting : All Fits p.0
  pub taken : (rest : List DeviceKey) × (map key_of p.0 ++ rest ≡ map key_of bs)
  pub full : missing ≡ 0 → Replicated required n (map share p.0)

count_none : (total : ℕ) → total < modulus → total ≡ sub (add total 0) 0
unfolding add sub
count_none total h = omega arith

count_more :
    (r q total l m : ℕ)
    → r < half
    → q < half
    → l < half
    → m < half
    → sub (add (add total (sub r l)) q) m ≡ sub (add total (q + r)) (l + m)
unfolding add sub
count_more r q total l m h i k j = omega arith

map_append : {A B : Type 0} (f : A → B) (xs ys : List A) → map f (xs ++ ys) ≡ map f xs ++ map f ys
map_append f [] ys = refl
map_append f (x ∷ xs) ys = ap (λ zs. f x ∷ zs) (map_append f xs ys)

append_assoc : {A : Type 0} (xs ys zs : List A) → (xs ++ ys) ++ zs ≡ xs ++ (ys ++ zs)
append_assoc [] ys zs = refl
append_assoc (x ∷ xs) ys zs = ap (λ ws. x ∷ ws) (append_assoc xs ys zs)

Picks-more :
    (n required total : ℕ) (bs : List VolumeBindingClaim)
    (g : List VolumeBindingClaim × List VolumeBindingClaim × ℕ) (p : List VolumeBindingClaim × ℕ)
    → required * suc n + 4_194_304 * length bs < half
    → Lacks required total bs g
    → Picks required n g.2 g.1 p
    → Picks required (suc n) total bs (g.0 ++ p.0, p.1)
Picks-more n required total bs g p k l m =
    let e = mul-suc required n in
    record {
      missing = l.lacking + m.missing;
      counted =
          rw (m.counted, l.counted, e)
            (count_more required (required * n) total l.lacking m.missing (omega arith)
              (omega arith) (omega (arith, l.bounded)) (omega (arith, l.bounded, m.bounded)));
      bounded = omega (arith, e, l.bounded, m.bounded);
      fitting = All-append Fits g.0 p.0 l.fitting m.fitting;
      taken = (
        m.taken.0,
        rw
            (
              map_append key_of g.0 p.0,
              append_assoc (map key_of g.0) (map key_of p.0) m.taken.0,
              m.taken.1,
            )
            l.taken,
      );
      full = λ z. rw (map_append share g.0 p.0) (
          replica (map share g.0) (map share p.0)
            (nothing_lacking _ _ l.lacking (zero_left l.lacking m.missing z) l.served)
            (m.full (omega (arith, z))));
    }

pub pick-Picks :
    (n required total : ℕ) (bs : List VolumeBindingClaim)
    → required * n + 4_194_304 * length bs < half
    → total < modulus
    → All IsSane bs
    → Picks required n total bs (pick n required total bs)
unfolding pick
pick-Picks zero required total bs k t s = record {
  missing = 0;
  counted = rw (mul-zero required) (count_none total t);
  bounded = omega arith;
  fitting = tt;
  taken = (map key_of bs, refl);
  full = λ e. done;
}
pick-Picks (suc n) required total bs k t s =
    let l = fill_start required total bs (omega arith) (omega arith) t s in
    Picks-more n required total bs (fill required 0 total bs) _ k l (
      pick-Picks n required (fill required 0 total bs).2 (fill required 0 total bs).1
        (omega (arith, l.bounded, mul-suc required n)) (counted-lt l) l.sane)
