-- ===== src/DataPond/Controller/Accounts/Balance.antt =====
-- The books of the controller balance: creating a volume and deleting one keep them so.
use mathlib.Core.Path.{subst}
use eecs_k8s.Prelude.{
  ℕ, ◌+◌, ◌%◌, String, str_eq, ◌≡◌, refl, some, none, [], ◌∷◌, All, All-map, arith, Bool-cases, inl,
  inr, some-injective,
}
use eecs_k8s.Prelude.I64.{modulus}
use eecs_k8s.Prelude.Dict.{string_eq, Dict, get, insert, remove}
use eecs_k8s.Prelude.Dict.Unique.{IsUnique, remove_absent, remove-IsUnique, insert-IsUnique}
use eecs_k8s.DataPond.Action.After.{After-all, Always}
use eecs_k8s.DataPond.Candidates.{DeviceKey}
use eecs_k8s.DataPond.Controller.{Cluster, System, Volume, VolumeClaim}
use eecs_k8s.DataPond.Controller.Handler.{Driver, release, delete_volume}
use eecs_k8s.DataPond.Controller.Create.{CreateRequest, charge, create_volume, volume_id_of}
use eecs_k8s.DataPond.Controller.Spec.{fresh_volume}
use eecs_k8s.DataPond.Controller.Effects.{create_volume-Created, delete_volume-Removed}
use eecs_k8s.DataPond.Controller.Accounts.{
  used, reserved_on, claimed_on, HasEntry, charge-used, release-used, charge-HasEntry,
  charged-HasEntry, release-HasEntry,
}

-- No id occurs twice, every device that is bound has an entry, and each entry is, as an `i64`, the sum of
-- what is reserved of the device.
pub record IsAccounted (d : Dict String Volume) (a : Dict DeviceKey ℕ) : Type 0 where
  pub unique : IsUnique d
  pub entries : All (λ e. All (HasEntry a) e.1.claim.bindings) d
  pub balanced : (k : DeviceKey) → used a k % modulus ≡ claimed_on k d % modulus

claimed_on-remove :
    (k : DeviceKey) (id : String) (v : Volume) (d : Dict String Volume)
    → IsUnique d
    → get d id ≡ some v
    → claimed_on k d ≡ reserved_on k v.claim.bindings + claimed_on k (remove id d)
unfolding claimed_on get remove
claimed_on-remove k id v [] u h = cc
claimed_on-remove k id v ((l, w) ∷ d) u h = elim (Bool-cases (str_eq id l)) [
  | inl e ↦
      let same = some-injective w v (rw e at h) in
      let absent : get d id ≡ none = rw ((string_eq.beq_iff id l).0 e) u.0 in
      rw (e, remove_absent id d absent, same) refl
  | inr e ↦ let ih = claimed_on-remove k id v d u.1 (rw e at h) in rw e (swap _ _ _ _ ih)
]
  where
    swap : (w c v r : ℕ) → c ≡ v + r → w + c ≡ v + (w + r)
    swap w c v r h = omega arith

remove-entries :
    (P : Volume → Type 0) (id : String) (d : Dict String Volume)
    → All (λ e. P e.1) d
    → All (λ e. P e.1) (remove id d)
unfolding remove
remove-entries P id [] h = tt
remove-entries P id ((l, w) ∷ d) h = elim (Bool-cases (str_eq id l)) [
  | inl e ↦ rw e (remove-entries P id d h.1)
  | inr e ↦ rw e (h.0, remove-entries P id d h.1)
]

get-entries :
    (P : Volume → Type 0) (id : String) (v : Volume) (d : Dict String Volume)
    → All (λ e. P e.1) d
    → get d id ≡ some v
    → P v
unfolding get
get-entries P id v [] h e = cc
get-entries P id v ((l, w) ∷ d) h e = elim (Bool-cases (str_eq id l)) [
  | inl s ↦ subst P (some-injective w v (rw s at e)) h.0
  | inr s ↦ get-entries P id v d h.1 (rw s at e)
]

pub store-IsAccounted :
    (id : String) (claim : VolumeClaim) (d : Dict String Volume) (a : Dict DeviceKey ℕ)
    → IsAccounted d a
    → get d id ≡ none
    → IsAccounted (insert id (fresh_volume claim) d) (charge claim.bindings a)
unfolding insert claimed_on
store-IsAccounted id claim d a h e =
    let same = remove_absent id d e in
    record {
      unique = insert-IsUnique id (fresh_volume claim) d h.unique;
      entries = (
        charged-HasEntry claim.bindings a,
        rw same (
            All-map _ _ d
              (λ v. All-map _ _ v.1.claim.bindings (λ b. charge-HasEntry b claim.bindings a))
              h.entries),
      );
      balanced = λ k. rw same (stored _ _ _ _ (charge-used k claim.bindings a) (h.balanced k));
    }
  where
    stored :
        (x y r c : ℕ)
        → x % modulus ≡ (y + r) % modulus
        → y % modulus ≡ c % modulus
        → x % modulus ≡ (r + c) % modulus
    stored x y r c h k = omega arith

remove-IsAccounted :
    (id : String) (v : Volume) (d : Dict String Volume) (a : Dict DeviceKey ℕ)
    → IsAccounted d a
    → get d id ≡ some v
    → IsAccounted (remove id d) (release v.claim.bindings a)
remove-IsAccounted id v d a h e =
    let here = get-entries (λ w. All (HasEntry a) w.claim.bindings) id v d h.entries e in
    record {
      unique = remove-IsUnique id d h.unique;
      entries =
          remove-entries (λ w. All (HasEntry (release v.claim.bindings a)) w.claim.bindings) id d
            (All-map _ _ d
              (λ w. All-map _ _ w.1.claim.bindings (λ b. release-HasEntry b v.claim.bindings a))
              h.entries);
      balanced = λ k.
          gone _ _ _ _ _ (release-used k v.claim.bindings a here) (h.balanced k)
            (claimed_on-remove k id v d h.unique e);
    }
  where
    gone :
        (x y r c t : ℕ)
        → (x + r) % modulus ≡ y % modulus
        → y % modulus ≡ c % modulus
        → c ≡ r + t
        → x % modulus ≡ t % modulus
    gone x y r c t h k e = omega arith

-- The books of a system.
abbrev pub Books : System → Type 0
Books s = IsAccounted s.state.volumes s.state.allocated

carried :
    {d b : Dict String Volume} {a c : Dict DeviceKey ℕ}
    → IsAccounted b c
    → d ≡ b
    → a ≡ c
    → IsAccounted d a
carried h e f = rw (e, f) h

-- Creating a volume under an id that is not in use keeps the books balanced, whether it succeeds or
-- fails: what is allocated on each device is, modulo 2 ^ 64, the sum of what the volumes have
-- reserved of it.
pub create_volume-Books :
    (cluster : Cluster) (driver : Driver) (r : CreateRequest) (s : System)
    → Books s
    → get s.state.volumes (volume_id_of r.name) ≡ none
    → Always Books (create_volume cluster driver r s)
create_volume-Books cluster driver r s h e =
    let d = s.state.volumes in
    let a = s.state.allocated in
    After-all (create_volume-Created cluster d a driver r s refl refl)
      (λ c t q.
        carried (store-IsAccounted (volume_id_of r.name) q.claim d a h e) q.stored q.computed)
      (λ t q. carried h q.0 q.1)

-- Deleting a volume that the controller holds keeps the books balanced, whether it succeeds or fails.
pub delete_volume-Books :
    (cluster : Cluster) (volume_id : String) (v : Volume) (s : System)
    → Books s
    → get s.state.volumes volume_id ≡ some v
    → Always Books (delete_volume cluster volume_id s)
delete_volume-Books cluster volume_id v s h e =
    let d = s.state.volumes in
    let a = s.state.allocated in
    After-all (delete_volume-Removed cluster d a volume_id v s refl refl e)
      (λ c t q. carried (remove-IsAccounted volume_id v d a h e) q.gone q.computed)
      (λ t q. carried h q.0 q.1)
