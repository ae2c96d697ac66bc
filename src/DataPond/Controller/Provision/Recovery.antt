-- ===== src/DataPond/Controller/Provision/Recovery.antt =====
-- A volume that was created is put together again from the bindings that the ponds report.
use mathlib.Core.List.{Permᴰ}
use eecs_k8s.Prelude.{
  ==-refl, ◌∙◌, ℕ, suc, ◌+◌, ◌%◌, ◌<◌, ◌≡◌, refl, sym, ◌∙◌, ap, Bool, true, false, some, List, [],
  ◌∷◌, All, All-map, length, arith,
}
use eecs_k8s.Prelude.Panic.{ok}
use eecs_k8s.Prelude.Sort.{IsSorted, sort, sort_by_key, lex_leb, lex_leb_trans}
use eecs_k8s.Prelude.Shuffle.{Distinct, sort_sorted, sort_permuted, permuted-All}
use eecs_k8s.DataPond.Binding.{VolumeBindingClaim}
use eecs_k8s.DataPond.Controller.Create.{index_from}
use eecs_k8s.DataPond.Controller.Provision.{
  validate_total, as_usize, index_key, in_order, expected, validate,
}

abbrev comes_before : VolumeBindingClaim → VolumeBindingClaim → Bool
comes_before a b = lex_leb (index_key a) (index_key b)

-- The claim at an index is before those of the later indices, and not after one.
abbrev IsBefore : ℕ → VolumeBindingClaim → Type 0
IsBefore i b =
    (lex_leb ((i + 2_147_483_648) ∷ []) (index_key b) ≡ true)
    × (lex_leb (index_key b) ((i + 2_147_483_648) ∷ []) ≡ false)

index_from-IsBefore :
    (i j t : ℕ) (bs : List VolumeBindingClaim)
    → i < j
    → j + length bs < 2_147_483_648
    → All (IsBefore i) (index_from j t bs)
unfolding index_from lex_leb index_key
index_from-IsBefore i j t [] h k = tt
index_from-IsBefore i j t (b ∷ bs) h k =
    ((ground arith, ground arith), index_from-IsBefore i (suc j) t bs (omega arith) (omega arith))

small :
    (i : ℕ)
    → i < 2_147_483_648
    → (i % 4_294_967_296 + 2_147_483_648) % 4_294_967_296 ≡ i + 2_147_483_648
small i h = omega arith

index_from-IsSorted :
    (i t : ℕ) (bs : List VolumeBindingClaim)
    → i + length bs < 2_147_483_648
    → IsSorted comes_before (index_from i t bs)
unfolding index_from index_key
index_from-IsSorted i t [] h = tt
index_from-IsSorted i t (b ∷ bs) h = (
  All-map _ _ (index_from (suc i) t bs) (λ c k. rw (small i (omega arith)) k.0)
      (index_from-IsBefore i (suc i) t bs (omega arith) (omega arith)),
  index_from-IsSorted (suc i) t bs (omega arith),
)

index_from-Distinct :
    (i t : ℕ) (bs : List VolumeBindingClaim)
    → i + length bs < 2_147_483_648
    → Distinct comes_before (index_from i t bs)
unfolding index_from index_key
index_from-Distinct i t [] h = tt
index_from-Distinct i t (b ∷ bs) h = (
  All-map _ _ (index_from (suc i) t bs) (λ c k. rw (small i (omega arith), k.0, k.1) refl)
      (index_from-IsBefore i (suc i) t bs (omega arith) (omega arith)),
  index_from-Distinct (suc i) t bs (omega arith),
)

small_usize : (i : ℕ) → i < 2_147_483_648 → as_usize (i % 4_294_967_296) ≡ i
unfolding as_usize
small_usize i h = ground arith

in_order-index_from :
    (i t : ℕ) (bs : List VolumeBindingClaim)
    → i + length bs < 2_147_483_648
    → in_order i (index_from i t bs) ≡ true
unfolding in_order index_from
in_order-index_from i t [] h = refl
in_order-index_from i t (b ∷ bs) h =
    rw (small_usize i (omega arith), ==-refl i) (in_order-index_from (suc i) t bs (omega arith))

IsTotal : ℕ → VolumeBindingClaim → Type 0
IsTotal t b = b.metadata.total_bindings ≡ t % 4_294_967_296

index_from-IsTotal : (i t : ℕ) (bs : List VolumeBindingClaim) → All (IsTotal t) (index_from i t bs)
unfolding index_from IsTotal
index_from-IsTotal i t [] = tt
index_from-IsTotal i t (b ∷ bs) = (refl, index_from-IsTotal (suc i) t bs)

expected_total :
    (t : ℕ) (bs : List VolumeBindingClaim)
    → t < 2_147_483_648
    → 0 < length bs
    → All (IsTotal t) bs
    → expected bs ≡ some t
unfolding expected IsTotal
expected_total t [] h k a = absurd (omega arith)
expected_total t (b ∷ bs) h k a = ap (λ n. some n) (ap as_usize a.0 ∙ small_usize t h)

length-index_from :
    (i t : ℕ) (bs : List VolumeBindingClaim) → length (index_from i t bs) ≡ length bs
unfolding index_from
length-index_from i t [] = refl
length-index_from i t (b ∷ bs) = ap suc (length-index_from (suc i) t bs)

permuted-length : {A : Type 0} {xs ys : List A} → Permᴰ xs ys → length xs ≡ length ys
permuted-length Permᴰ.nil = refl
permuted-length (Permᴰ.cons e d) = ap suc (permuted-length d)
permuted-length (Permᴰ.swap e f) = refl
permuted-length (Permᴰ.trans d e) = permuted-length d ∙ permuted-length e

-- The bindings that `create_volume` numbers pass the validation of a volume that is discovered, in
-- whatever order the ponds report them, and come back in the order they were given, as long as
-- there are fewer than 2 ^ 31 and at least one.
pub validate-index_from :
    (bs xs : List VolumeBindingClaim)
    → 0 < length bs
    → length bs < 2_147_483_648
    → Permᴰ (index_from 0 (length bs) bs) xs
    → validate xs ≡ ok (index_from 0 (length bs) bs)
unfolding validate validate_total sort_by_key
validate-index_from bs xs h k d =
    let n = length-index_from 0 (length bs) bs in
    let m : length xs ≡ length bs = sym (permuted-length d) ∙ n in
    let t =
      permuted-All comes_before trans (IsTotal (length bs)) d
        (index_from-IsTotal 0 (length bs) bs) in
    let s : sort comes_before xs ≡ index_from 0 (length bs) bs =
      sym (sort_permuted comes_before trans d (index_from-Distinct 0 (length bs) bs (omega arith)))
      ∙ sort_sorted comes_before (index_from 0 (length bs) bs)
          (index_from-IsSorted 0 (length bs) bs (omega arith)) in
    rw
      (
        expected_total (length bs) xs k (omega (arith, m)) t,
        m,
        ==-refl (length bs),
        s,
        in_order-index_from 0 (length bs) bs (omega arith),
      )
      refl
  where
    trans :
        (x y z : VolumeBindingClaim)
        → comes_before x y ≡ true
        → comes_before y z ≡ true
        → comes_before x z ≡ true
    trans x y z = lex_leb_trans (index_key x) (index_key y) (index_key z)
