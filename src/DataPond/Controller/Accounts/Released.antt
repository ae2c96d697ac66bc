-- ===== src/DataPond/Controller/Accounts/Released.antt =====
-- What the release of some bindings does to the account of one device.
use eecs_k8s.Prelude.{
  zero_add, ℕ, ◌+◌, ◌%◌, ◌≡◌, refl, sym, ◌∙◌, ap, true, false, some, none, Option, List, [], ◌∷◌,
  arith, unwrap_or, is_some, Bool-cases, inl, inr,
}
use eecs_k8s.Prelude.I64.{sub, modulus}
use eecs_k8s.Prelude.Dict.{string_eq, Dict, get, get-insert_ne}
use eecs_k8s.DataPond.Binding.{VolumeBindingClaim}
use eecs_k8s.DataPond.Candidates.{DeviceKey, device_key_eq, same_key, key_of}
use eecs_k8s.DataPond.Controller.Handler.{release_entry, release}
use eecs_k8s.DataPond.Controller.Accounts.{
  used, used-insert, reserved_on, insert-HasEntry, release_step,
}

-- Releasing a binding, where the device has no entry or has one.
entry_used :
    (k : DeviceKey) (o : Option ℕ) (b : VolumeBindingClaim) (a : Dict DeviceKey ℕ)
    → get a (key_of b) ≡ o
    → same_key k (key_of b) ≡ true
    → is_some (get a k) ≡ true
    → used (release_entry o b a) k ≡ sub (used a k) b.metadata.reserved
unfolding release_entry
entry_used k none b a e same h =
    let here : get a k ≡ none = rw ((device_key_eq.beq_iff k (key_of b)).0 same) e in
    let clash : false ≡ true = rw here at h in cc
entry_used k (some n) b a e same h =
    used-insert k (key_of b) (sub n b.metadata.reserved) a
    ∙ rw (same, (device_key_eq.beq_iff k (key_of b)).0 same, e) refl

entry_other :
    (k : DeviceKey) (o : Option ℕ) (b : VolumeBindingClaim) (a : Dict DeviceKey ℕ)
    → same_key k (key_of b) ≡ false
    → get (release_entry o b a) k ≡ get a k
unfolding release_entry
entry_other k none b a other = refl
entry_other k (some n) b a other = get-insert_ne (key_of b) k (sub n b.metadata.reserved) a other

entry_stays :
    (k : DeviceKey) (o : Option ℕ) (b : VolumeBindingClaim) (a : Dict DeviceKey ℕ)
    → is_some (get a k) ≡ true
    → is_some (get (release_entry o b a) k) ≡ true
unfolding release_entry
entry_stays k none b a h = h
entry_stays k (some n) b a h = insert-HasEntry k (key_of b) (sub n b.metadata.reserved) a h

-- What is released of a device that has an entry.
pub release-used_at :
    (k : DeviceKey) (bs : List VolumeBindingClaim) (a : Dict DeviceKey ℕ)
    → is_some (get a k) ≡ true
    → (used (release bs a) k + reserved_on k bs) % modulus ≡ used a k % modulus
unfolding release reserved_on
release-used_at k [] a h = omega arith
release-used_at k (b ∷ bs) a h =
    let o = get a (key_of b) in
    let ih = release-used_at k bs (release_entry o b a) (entry_stays k o b a h) in
    elim (Bool-cases (same_key k (key_of b))) [
      | inl e ↦ rw e (
          release_step _ (used (release_entry o b a) k) (used a k) b.metadata.reserved
            (reserved_on k bs) ih (entry_used k o b a refl e h))
      | inr e ↦
          rw (e, zero_add (reserved_on k bs))
            (ih ∙ ap (λ g. unwrap_or g 0 % modulus) (entry_other k o b a e))
    ]

entry_none :
    (k : DeviceKey) (o : Option ℕ) (b : VolumeBindingClaim) (a : Dict DeviceKey ℕ)
    → get a (key_of b) ≡ o
    → get a k ≡ none
    → get (release_entry o b a) k ≡ none
unfolding release_entry
entry_none k none b a e h = h
entry_none k (some n) b a e h = elim (Bool-cases (same_key k (key_of b))) [
  | inl same ↦
      let there : get a k ≡ some n = rw ((device_key_eq.beq_iff k (key_of b)).0 same) e in
      let clash : none ≡ some n = sym h ∙ there in cc
  | inr other ↦ get-insert_ne (key_of b) k (sub n b.metadata.reserved) a other ∙ h
]

-- A device without an entry gets none.
pub release-none :
    (k : DeviceKey) (bs : List VolumeBindingClaim) (a : Dict DeviceKey ℕ)
    → get a k ≡ none
    → get (release bs a) k ≡ none
unfolding release
release-none k [] a h = h
release-none k (b ∷ bs) a h =
    release-none k bs (release_entry (get a (key_of b)) b a)
      (entry_none k (get a (key_of b)) b a refl h)
