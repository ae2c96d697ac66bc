-- ===== src/Prelude/Dict.antt =====
-- Maps as association lists: `HashMap`, and `BTreeMap` where the order of the keys is not read.
pub mod Unique
use eecs_k8s.Prelude.{
  ◌≡◌, refl, sym, ◌↔◌, Bool, true, false, Option, none, some, List, [], ◌∷◌, String, str_eq, eq_iff,
  Bool-cases, if◌then◌else◌, inl, inr,
}

-- A type whose equality is a test.
pub record Eq {ℓ} (K : Type ℓ) : Type ℓ where
  pub beq : K → K → Bool
  pub beq_iff : (a b : K) → (beq a b ≡ true) ↔ (a ≡ b)

instance abbrev pub string_eq : Eq String
string_eq = record { beq = str_eq; beq_iff = eq_iff }

abbrev pub Dict : Type 0 → Type 0 → Type 0
Dict K V = List (K × V)

module _ {K : Type 0} ⦃e : Eq K⦄ where
  module _ {V : Type 0} where
    unfoldable pub get : Dict K V → K → Option V
    get [] k = none
    get ((l, v) ∷ d) k = if e.beq k l then some v else get d k

    unfoldable pub remove : K → Dict K V → Dict K V
    remove k [] = []
    remove k ((l, v) ∷ d) = if e.beq k l then remove k d else (l, v) ∷ remove k d

    unfoldable pub insert : K → V → Dict K V → Dict K V
    unfolding remove
    insert k v d = (k, v) ∷ remove k d

    -- `extend`: the entries of the second map replace those of the first.
    unfoldable pub extend : Dict K V → Dict K V → Dict K V
    unfolding insert
    extend d [] = d
    extend d ((k, v) ∷ more) = extend (insert k v d) more

  pub beq_refl : (k : K) → e.beq k k ≡ true
  beq_refl k = (e.beq_iff k k).1 refl

  module _ {V : Type 0} where
    pub get-remove_self : (k : K) (d : Dict K V) → get (remove k d) k ≡ none
    unfolding get remove
    get-remove_self k [] = refl
    get-remove_self k ((l, v) ∷ d) = elim (Bool-cases (e.beq k l)) [
      | inl h ↦ rw h (get-remove_self k d)
      | inr h ↦ rw (h, h) (get-remove_self k d)
    ]

    pub get-remove_ne : (k l : K) (d : Dict K V) → e.beq l k ≡ false → get (remove k d) l ≡ get d l
    unfolding get remove
    get-remove_ne k l [] n = refl
    get-remove_ne k l ((m, v) ∷ d) n = elim (Bool-cases (e.beq k m)) [
      | inl h ↦ let same = (e.beq_iff k m).0 h in rw (h, sym same, n, get-remove_ne k l d n)
      | inr h ↦ elim (Bool-cases (e.beq l m)) [
        | inl g ↦ rw (h, g) refl
        | inr g ↦ rw (h, g) (get-remove_ne k l d n)
      ]
    ]

    pub get-insert_self : (k : K) (v : V) (d : Dict K V) → get (insert k v d) k ≡ some v
    unfolding get insert
    get-insert_self k v d = rw (beq_refl k)

    pub get-insert_ne :
        (k l : K) (v : V) (d : Dict K V) → e.beq l k ≡ false → get (insert k v d) l ≡ get d l
    unfolding get insert
    get-insert_ne k l v d n = rw n (get-remove_ne k l d n)
