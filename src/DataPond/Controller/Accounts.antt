-- ===== src/DataPond/Controller/Accounts.antt =====
-- What is allocated on a device is what the volumes of the controller have reserved of it.
pub mod Balance
pub mod Undo
pub mod Released
use eecs_k8s.Prelude.{
  All-map, zero_add, ◌<◌, ℕ, ◌+◌, ◌%◌, String, ◌≡◌, refl, sym, ◌∙◌, ap, true, false, some, none,
  Option, List, [], ◌∷◌, All, arith, unwrap_or, is_some, Bool-cases, inl, inr, if◌then◌else◌,
}
use eecs_k8s.Prelude.I64.{add, sub, modulus}
use eecs_k8s.Prelude.Dict.{string_eq, Dict, get, insert, get-insert_self, get-insert_ne, beq_refl}
use eecs_k8s.DataPond.Binding.{VolumeBindingClaim}
use eecs_k8s.DataPond.Candidates.{DeviceKey, device_key_eq, same_key, key_of}
use eecs_k8s.DataPond.Controller.{Volume}
use eecs_k8s.DataPond.Controller.Handler.{release_entry, release}
use eecs_k8s.DataPond.Controller.Create.{charge}

abbrev pub used : Dict DeviceKey ℕ → DeviceKey → ℕ
used a k = unwrap_or (get a k) 0

-- What some bindings have reserved of a device.
unfoldable pub reserved_on : DeviceKey → List VolumeBindingClaim → ℕ
reserved_on k [] = 0
reserved_on k (b ∷ bs) =
    (if same_key k (key_of b) then b.metadata.reserved else 0) + reserved_on k bs

-- What all volumes have.
unfoldable pub claimed_on : DeviceKey → Dict String Volume → ℕ
claimed_on k [] = 0
claimed_on k ((id, v) ∷ d) = reserved_on k v.claim.bindings + claimed_on k d

-- The device of a binding has an entry.
abbrev pub HasEntry : Dict DeviceKey ℕ → VolumeBindingClaim → Type 0
HasEntry a b = is_some (get a (key_of b)) ≡ true

pub insert-HasEntry :
    (k l : DeviceKey) (n : ℕ) (a : Dict DeviceKey ℕ)
    → is_some (get a k) ≡ true
    → is_some (get (insert l n a) k) ≡ true
insert-HasEntry k l n a h = elim (Bool-cases (same_key k l)) [
  | inl e ↦ rw ((device_key_eq.beq_iff k l).0 e, get-insert_self l n a) refl
  | inr e ↦ rw (get-insert_ne l k n a e) h
]

pub used-insert :
    (k l : DeviceKey) (n : ℕ) (a : Dict DeviceKey ℕ)
    → used (insert l n a) k ≡ (if same_key k l then n else used a k)
used-insert k l n a = elim (Bool-cases (same_key k l)) [
  | inl e ↦ rw ((device_key_eq.beq_iff k l).0 e, get-insert_self l n a, beq_refl l) refl
  | inr e ↦ rw (e, get-insert_ne l k n a e) refl
]

same_used : (k l : DeviceKey) (a : Dict DeviceKey ℕ) → same_key k l ≡ true → used a l ≡ used a k
same_used k l a e = ap (used a) (sym ((device_key_eq.beq_iff k l).0 e))

charge_step :
    (x y z r t : ℕ)
    → x % modulus ≡ (y + t) % modulus
    → y ≡ add z r
    → x % modulus ≡ (z + (r + t)) % modulus
unfolding add
charge_step x y z r t h e = omega (arith, h, e)

pub release_step :
    (x y z r t : ℕ)
    → (x + t) % modulus ≡ y % modulus
    → y ≡ sub z r
    → (x + (r + t)) % modulus ≡ z % modulus
unfolding sub
release_step x y z r t h e = omega (arith, h, e)

pub charge-used :
    (k : DeviceKey) (bs : List VolumeBindingClaim) (a : Dict DeviceKey ℕ)
    → used (charge bs a) k % modulus ≡ (used a k + reserved_on k bs) % modulus
unfolding charge reserved_on
charge-used k [] a = omega arith
charge-used k (b ∷ bs) a =
    let n = add (used a (key_of b)) b.metadata.reserved in
    let ih = charge-used k bs (insert (key_of b) n a) in
    let u = used-insert k (key_of b) n a in
    elim (Bool-cases (same_key k (key_of b))) [
      | inl e ↦ rw e (
          charge_step _ (used (insert (key_of b) n a) k) (used a k) b.metadata.reserved
            (reserved_on k bs) ih (u ∙ rw (e, same_used k (key_of b) a e) refl))
      | inr e ↦ rw (e, zero_add (reserved_on k bs)) (ih ∙ rw (u, e) refl)
    ]

pub entry_present :
    (o : Option ℕ) (b : VolumeBindingClaim) (a : Dict DeviceKey ℕ)
    → is_some o ≡ true
    → release_entry o b a ≡ insert (key_of b) (sub (unwrap_or o 0) b.metadata.reserved) a
unfolding release_entry
entry_present none b a h = cc
entry_present (some n) b a h = refl

All-insert :
    (l : DeviceKey) (n : ℕ) (a : Dict DeviceKey ℕ) (bs : List VolumeBindingClaim)
    → All (HasEntry a) bs
    → All (HasEntry (insert l n a)) bs
All-insert l n a bs = All-map _ _ bs (λ b. insert-HasEntry (key_of b) l n a)

pub release-used :
    (k : DeviceKey) (bs : List VolumeBindingClaim) (a : Dict DeviceKey ℕ)
    → All (HasEntry a) bs
    → (used (release bs a) k + reserved_on k bs) % modulus ≡ used a k % modulus
unfolding release reserved_on
release-used k [] a h = omega arith
release-used k (b ∷ bs) a h =
    let n = sub (used a (key_of b)) b.metadata.reserved in
    let ih = release-used k bs (insert (key_of b) n a) (All-insert (key_of b) n a bs h.1) in
    let u = used-insert k (key_of b) n a in
    rw (entry_present (get a (key_of b)) b a h.0) (elim (Bool-cases (same_key k (key_of b))) [
      | inl e ↦ rw e (
          release_step _ (used (insert (key_of b) n a) k) (used a k) b.metadata.reserved
            (reserved_on k bs) ih (u ∙ rw (e, same_used k (key_of b) a e) refl))
      | inr e ↦ rw (e, zero_add (reserved_on k bs)) (ih ∙ rw (u, e) refl)
    ])

pub charge-HasEntry :
    (c : VolumeBindingClaim) (bs : List VolumeBindingClaim) (a : Dict DeviceKey ℕ)
    → HasEntry a c
    → HasEntry (charge bs a) c
unfolding charge
charge-HasEntry c [] a h = h
charge-HasEntry c (b ∷ bs) a h =
    charge-HasEntry c bs _ (insert-HasEntry (key_of c) (key_of b) _ a h)

pub charged-HasEntry :
    (bs : List VolumeBindingClaim) (a : Dict DeviceKey ℕ) → All (HasEntry (charge bs a)) bs
unfolding charge
charged-HasEntry [] a = tt
charged-HasEntry (b ∷ bs) a =
    let n = add (used a (key_of b)) b.metadata.reserved in
    (
      charge-HasEntry b bs (insert (key_of b) n a) (rw (get-insert_self (key_of b) n a) refl),
      charged-HasEntry bs (insert (key_of b) n a),
    )

pub release-HasEntry :
    (c : VolumeBindingClaim) (bs : List VolumeBindingClaim) (a : Dict DeviceKey ℕ)
    → HasEntry a c
    → HasEntry (release bs a) c
unfolding release
release-HasEntry c [] a h = h
release-HasEntry c (b ∷ bs) a h =
    release-HasEntry c bs (release_entry (get a (key_of b)) b a) (entry_keeps (get a (key_of b)))
  where
    entry_keeps : (o : Option ℕ) → HasEntry (release_entry o b a) c
    entry_keeps none = h
    entry_keeps (some n) = insert-HasEntry (key_of c) (key_of b) _ a h
