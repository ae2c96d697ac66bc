-- ===== src/DataPond/Picking/Deficit.antt =====
-- How many bytes a replica still lacks, as the devices are picked.
use eecs_k8s.Prelude.{
  ◌⊎◌, ℕ, ◌+◌, ◌-◌, ◌≤◌, ◌<◌, ◌≡◌, refl, ◌==◌, List, [], ◌∷◌, arith, if◌then◌else◌, Bool-cases, inl,
  inr, leb,
}
use eecs_k8s.Prelude.I64.{add, sub, le, min, modulus, half}
use eecs_k8s.DataPond.Types.{padding, DeviceLayer}
use eecs_k8s.DataPond.Binding.{VolumeBindingClaim, available, reserve}
use eecs_k8s.DataPond.Candidates.{key_of}
use eecs_k8s.Prelude.{refl}
use eecs_k8s.DataPond.Picking.{fill}
use eecs_k8s.DataPond.Picking.Spec.{Fits, payload, shortfall, IsSane}

-- A device whose available bytes are less than none lacks at most one padding.
abbrev pub InRange : ℕ → Type 0
InRange a = (a < half) ⊎ ((modulus ≤ a + 4_194_304) × (a < modulus))

-- What is lacking after a device of `a` available bytes.
abbrev pub next_lack : ℕ → ℕ → ℕ
next_lack d a = sub d (min a d)

pub min-lt : (a d : ℕ) → InRange a → d < half → min a d < modulus
unfolding min le
min-lt a d (inl s) k = ground arith
min-lt a d (inr s) k = ground arith

pub next_lack-le : (a d : ℕ) → InRange a → d < half → next_lack d a ≤ d + 4_194_304
unfolding sub min le
next_lack-le a d (inl s) k = ground arith
next_lack-le a d (inr s) k = ground arith

sub-add_sub : (r d m : ℕ) → r < half → d < half → m < modulus → add (sub r d) m ≡ sub r (sub d m)
unfolding add sub
sub-add_sub r d m h k l = omega arith

sub-sub_self : (r d : ℕ) → r < half → d < half → sub r (sub r d) ≡ d
unfolding sub
sub-sub_self r d h k = omega arith

le-sub : (r d : ℕ) → r < half → d < half → le r (sub r d) ≡ (d == 0)
unfolding sub le
le-sub r d h k = ground arith

padding_le : (l : DeviceLayer) → padding l ≤ 4_194_304
unfolding padding
padding_le DeviceLayer.unknown = omega arith
padding_le DeviceLayer.lvm = omega arith

available_range :
    (c o p : ℕ)
    → (o ≤ c) × (c < 4_611_686_018_427_387_904)
    → p ≤ 4_194_304
    → InRange (sub (sub c o) p)
unfolding sub
available_range c o p h k = elim (Bool-cases (leb p (c - o))) [
  | inl l ↦ inl (ground arith)
  | inr l ↦ inr (ground arith, ground arith)
]

pub available-InRange : (b : VolumeBindingClaim) → IsSane b → InRange (available b)
unfolding available
available-InRange b h =
    available_range b.device.capacity b.metadata.offset (padding b.device.layer) h
      (padding_le b.device.layer)

pub reserved : VolumeBindingClaim → ℕ → VolumeBindingClaim
unfolding reserve
reserved b d = (reserve b d).0

served_and_lacking :
    (c o p d : ℕ)
    → (o ≤ c) × (c < 4_611_686_018_427_387_904)
    → p ≤ 4_194_304
    → d < half
    → (add (min (sub (sub c o) p) d) p - p) + sub d (min (sub (sub c o) p) d) ≡ d + (o + p - c)
unfolding add sub min le
served_and_lacking c o p d h k l = elim (Bool-cases (leb p (c - o))) [
  | inl e ↦ ground arith
  | inr e ↦ ground arith
]

-- What a claim serves of `d` bytes, and what is lacking after it.
pub payload-reserved :
    (b : VolumeBindingClaim) (d : ℕ)
    → IsSane b
    → d < half
    → payload (reserved b d) + next_lack d (available b) ≡ d + shortfall (reserved b d)
unfolding payload shortfall reserved reserve available
payload-reserved b d h k =
    served_and_lacking b.device.capacity b.metadata.offset (padding b.device.layer) d h
      (padding_le b.device.layer) k

-- One device of the loop, by what is lacking.
pub fill-cons :
    (required d total : ℕ) (b : VolumeBindingClaim) (bs : List VolumeBindingClaim)
    → required < half
    → d + 4_194_304 < half
    → IsSane b
    → fill required (sub required d) total (b ∷ bs) ≡ (
        let a = available b in
        let total' = add total (min a d) in
        let more = fill required (sub required (next_lack d a)) total' bs in
        if next_lack d a == 0
        then (reserved b d ∷ [], bs, total')
        else (reserved b d ∷ more.0, more.1, more.2))
unfolding fill reserved reserve
fill-cons required d total b bs h k s =
    let k' : d < half = omega arith in
    let a = available-InRange b s in
    let m = min-lt (available b) d a k' in
    let n : next_lack d (available b) < half = omega (arith, next_lack-le (available b) d a k') in
    rw
      (
        sub-sub_self required d h k',
        sub-add_sub required d (min (available b) d) h k' m,
        le-sub required (next_lack d (available b)) h n,
      )
      refl

fits :
    (c o p d : ℕ)
    → (o ≤ c) × (c < 4_611_686_018_427_387_904)
    → p ≤ 4_194_304
    → d < half
    → o + add (min (sub (sub c o) p) d) p ≤ c
unfolding add sub min le
fits c o p d h k l = elim (Bool-cases (leb p (c - o))) [
  | inl e ↦ ground arith
  | inr e ↦ ground arith
]

pub reserved-Fits : (b : VolumeBindingClaim) (d : ℕ) → IsSane b → d < half → Fits (reserved b d)
unfolding reserved reserve available
reserved-Fits b d h k =
    fits b.device.capacity b.metadata.offset (padding b.device.layer) d h
      (padding_le b.device.layer) k

pub key_of-reserved : (b : VolumeBindingClaim) (d : ℕ) → key_of (reserved b d) ≡ key_of b
unfolding reserved reserve
key_of-reserved b d = refl
