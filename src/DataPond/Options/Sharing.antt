-- ===== src/DataPond/Options/Sharing.antt =====
-- Which capabilities of a volume are refused, and when the volume is shared.
use mathlib.Core.Path.{subst}
use eecs_k8s.Prelude.{
  ◌≡◌, refl, sym, Bool, true, false, ◌&&◌, ◌||◌, Option, some, none, List, [], ◌∷◌, arith,
  Bool-cases, inl, inr,
}
use eecs_k8s.Prelude.Panic.{Result, ok, err, panic, ◌>>=◌}
use eecs_k8s.DataPond.Types.{Status, VolumeOptions}
use eecs_k8s.DataPond.Options.{
  VolumeCapability, AccessType, block, mount, is_multi_node, apply_access_mode, apply_access_type,
  apply_volume_capability, apply_volume_capabilities,
}

abbrev pub is_block : Option AccessType → Bool
is_block (some block) = true
is_block (some (mount fs_type flags group)) = false
is_block none = false

-- Some capability is for several nodes.
unfoldable pub is_shared_by : List VolumeCapability → Bool
is_shared_by [] = false
is_shared_by (c ∷ cs) = is_multi_node c.access_mode || is_shared_by cs

-- Some capability asks for a block device when the volume is already shared, or shares it.
unfoldable pub refuses : Bool → List VolumeCapability → Bool
refuses shared [] = false
refuses shared (c ∷ cs) =
    let now = shared || is_multi_node c.access_mode in
    (now && is_block c.access_type) || refuses now cs

-- The outcome of capabilities that are refused or not, and make a volume shared or not.
abbrev pub Decided : Bool → Bool → Result Status VolumeOptions → Type 0
Decided refused shared (ok o) = (refused ≡ false) × (o.mount_shared ≡ shared)
Decided refused shared (err e) = refused ≡ true
Decided refused shared panic = ⊥

access_mode-Decided :
    (c : VolumeCapability) (o : VolumeOptions)
    → (apply_access_mode c.access_mode o).mount_shared
      ≡ (o.mount_shared || is_multi_node c.access_mode)
unfolding apply_access_mode
access_mode-Decided c o = elim (Bool-cases (is_multi_node c.access_mode)) [
  | inl e ↦ rw e (ground arith)
  | inr e ↦ rw e (ground arith)
]

access_type-Decided :
    (t : Option AccessType) (o : VolumeOptions)
    → Decided (o.mount_shared && is_block t) o.mount_shared (apply_access_type t o)
unfolding apply_access_type
access_type-Decided (some block) o = elim (Bool-cases o.mount_shared) [
  | inl e ↦ rw e refl
  | inr e ↦ rw e (refl, refl)
]
access_type-Decided (some (mount fs_type flags group)) o = (ground arith, refl)
access_type-Decided none o = (ground arith, refl)

then_more :
    (refused shared : Bool) (r : Result Status VolumeOptions) (cs : List VolumeCapability)
    → Decided refused shared r
    → ((o : VolumeOptions)
        → Decided
            (refuses o.mount_shared cs)
            (o.mount_shared || is_shared_by cs)
            (apply_volume_capabilities cs o))
    → Decided
        (refused || refuses shared cs)
        (shared || is_shared_by cs)
        (r >>= λ o. apply_volume_capabilities cs o)
then_more refused shared (ok o) cs h k = rw (h.0, sym h.1) (k o)
then_more refused shared (err e) cs h k = rw h refl
then_more refused shared panic cs h k = h

or_assoc : (a b c : Bool) → (a || (b || c)) ≡ ((a || b) || c)
or_assoc a b c = ground arith

-- The capabilities of a volume are refused exactly if one of them is for a block device and it, or
-- one before it, or the options that they start from, share the volume between nodes; else the
-- volume is shared exactly if the options that they start from say so or one of them is for
-- several nodes.
pub apply_volume_capabilities-Decided :
    (cs : List VolumeCapability) (o : VolumeOptions)
    → Decided
        (refuses o.mount_shared cs)
        (o.mount_shared || is_shared_by cs)
        (apply_volume_capabilities cs o)
unfolding apply_volume_capability apply_volume_capabilities refuses is_shared_by
apply_volume_capabilities-Decided [] o = (refl, ground arith)
apply_volume_capabilities-Decided (c ∷ cs) o =
    let next = apply_access_mode c.access_mode o in
    let one = access_type-Decided c.access_type next in
    rw (or_assoc o.mount_shared (is_multi_node c.access_mode) (is_shared_by cs)) (
      then_more _ _ (apply_access_type c.access_type next) cs
        (subst (λ m. Decided (m && is_block c.access_type) m (apply_access_type c.access_type next))
          (access_mode-Decided c o) one)
        (apply_volume_capabilities-Decided cs))
