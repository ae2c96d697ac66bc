-- ===== src/DataPond/Candidates.antt =====
-- contrib/data-pond/src/controller.rs: the devices that `create_volume` picks from, in their order.
use Prim.Native.Nat.{Ordering, compare as compare_ℕ}
use Prim.Native.String.{compare, then as and_then}
use eecs_k8s.Prelude.{
  arith, eq_iff, ◌↔◌, ◌≡◌, ◌&&◌, ℕ, ◌-◌, String, Bool, true, false, Option, none, some, List, [],
  ◌∷◌, ◌++◌, map, str_eq, if◌then◌else◌, unwrap_or,
}
use eecs_k8s.Prelude.Select.{all, any, count_if}
use eecs_k8s.Prelude.I64.{modulus, neg, signed}
use eecs_k8s.Prelude.Dict.{Dict, get, Eq, string_eq}
use eecs_k8s.DataPond.Types.{Device}
use eecs_k8s.DataPond.Binding.{Pond, VolumeBindingClaim, available}

pub data DeviceKey : Type 0 where
  device_key : (pond_id : String) (device_id : String) → DeviceKey

abbrev pub same_key : DeviceKey → DeviceKey → Bool
same_key (device_key p d) (device_key q e) = str_eq p q && str_eq d e

pub same_key_iff : (a b : DeviceKey) → (same_key a b ≡ true) ↔ (a ≡ b)
same_key_iff (device_key p d) (device_key q e) =
    (λ h. ground (arith, eq_iff p q, eq_iff d e), λ h. ground (arith, eq_iff p q, eq_iff d e))

instance abbrev pub device_key_eq : Eq DeviceKey
device_key_eq = record { beq = same_key; beq_iff = same_key_iff }

abbrev pub key_of : VolumeBindingClaim → DeviceKey
key_of b = device_key b.pond.id b.device.id

-- A topology is its segments.
pub record AccessibilityRequirements : Type 0 where
  pub requisite : List (Dict String String)
  pub preferred : List (Dict String String)

pub record TopologyRequirement : Type 0 where
  pub is_requisite : Bool
  pub count_preferred : ℕ

abbrev pub has_value : Option String → String → Bool
has_value none value = false
has_value (some text) value = str_eq text value

unfoldable pub matches : Dict String String → Dict String String → Bool
unfolding all get
matches topology segments = all (λ s. has_value (get topology s.0) s.1) segments

unfoldable pub filter_topology : Option AccessibilityRequirements → Pond → TopologyRequirement
unfolding matches any count_if
filter_topology none pond = record { is_requisite = true; count_preferred = 0 }
filter_topology (some r) pond = record {
  is_requisite = any (matches pond.topology.provides) r.requisite;
  count_preferred = count_if (matches pond.topology.provides) r.preferred;
}

-- `(!preferred, -capacity, pond, device)`
pub record Priority : Type 0 where
  pub not_preferred : ℕ
  pub minus_capacity : ℕ
  pub pond_id : String
  pub device_id : String

unfoldable pub compare_priority : Priority → Priority → Ordering
compare_priority a b = and_then (compare_ℕ a.not_preferred b.not_preferred) (
    and_then (compare_ℕ (signed a.minus_capacity) (signed b.minus_capacity))
      (and_then (compare a.pond_id b.pond_id) (compare a.device_id b.device_id)))

unfoldable pub priority : ℕ → VolumeBindingClaim → Priority
unfolding available neg
priority preferred b = record {
  not_preferred = modulus - 1 - preferred;
  minus_capacity = neg (available b);
  pond_id = b.pond.id;
  device_id = b.device.id;
}

-- `insert` of a `BTreeMap`
module _ {K V : Type 0} (order : K → K → Ordering) where
  unfoldable pub insert_ordered : K → V → List (K × V) → List (K × V)
  insert_ordered k v [] = (k, v) ∷ []
  insert_ordered k v ((l, w) ∷ d) = elim (order k l) [
    | Ordering.lt ↦ (k, v) ∷ (l, w) ∷ d
    | Ordering.eq ↦ (k, v) ∷ d
    | Ordering.gt ↦ (l, w) ∷ insert_ordered k v d
  ]

-- The claim of a device that a new volume starts from: it begins where the device is taken so far.
unfoldable pub fresh_claim :
    (volume_id : String) → Dict DeviceKey ℕ → String → Pond → Device → VolumeBindingClaim
unfolding get
fresh_claim volume_id allocated pond_id pond device = record {
  device = device;
  metadata = record {
    volume_id = volume_id;
    device_id = device.id;
    index_bindings = 0;
    total_bindings = 0;
    offset = unwrap_or (get allocated (device_key pond_id device.id)) 0;
    reserved = 0;
  };
  pond = pond;
}

unfoldable pub claims :
    (volume_id : String) → Dict DeviceKey ℕ → Dict String Pond → List VolumeBindingClaim
unfolding fresh_claim
claims volume_id allocated [] = []
claims volume_id allocated ((pond_id, pond) ∷ ponds) =
    map (fresh_claim volume_id allocated pond_id pond) pond.devices
    ++ claims volume_id allocated ponds

unfoldable pub rank :
    Option AccessibilityRequirements
    → List VolumeBindingClaim
    → List (Priority × VolumeBindingClaim)
    → List (Priority × VolumeBindingClaim)
unfolding filter_topology priority compare_priority insert_ordered
rank requirements [] ranked = ranked
rank requirements (b ∷ bs) ranked =
    let t = filter_topology requirements b.pond in
    rank requirements bs (
      if t.is_requisite
      then insert_ordered compare_priority (priority t.count_preferred b) b ranked
      else ranked)

-- `available_bindings.into_values()`
unfoldable pub available_bindings :
    Option AccessibilityRequirements
    → (volume_id : String) → Dict DeviceKey ℕ
    → Dict String Pond
    → List VolumeBindingClaim
unfolding claims rank
available_bindings requirements volume_id allocated ponds =
    map (λ r. r.1) (rank requirements (claims volume_id allocated ponds) [])
