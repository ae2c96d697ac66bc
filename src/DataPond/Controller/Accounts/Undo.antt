-- ===== src/DataPond/Controller/Accounts/Undo.antt =====
-- Deleting a volume undoes its creation.
use eecs_k8s.Prelude.{ℕ, ◌+◌, ◌%◌, String, ◌≡◌, refl, none, arith}
use eecs_k8s.Prelude.I64.{modulus}
use eecs_k8s.Prelude.Dict.{string_eq, get, insert, remove, beq_refl}
use eecs_k8s.Prelude.Dict.Unique.{remove_absent}
use eecs_k8s.DataPond.Candidates.{DeviceKey}
use eecs_k8s.DataPond.Controller.{State, Volume}
use eecs_k8s.DataPond.Controller.Handler.{remove_volume}
use eecs_k8s.DataPond.Controller.Create.{store_volume}
use eecs_k8s.DataPond.Controller.Accounts.{used, charge-used, release-used, charged-HasEntry}

abbrev pub undone : String → Volume → State → State
undone volume_id v st = remove_volume volume_id v (store_volume volume_id v st)

-- Storing a volume under an id that is not in use and removing it leaves the same volumes, and on
-- every device as much allocated, as an `i64`.
pub remove_volume-store_volume :
    (volume_id : String) (v : Volume) (st : State)
    → get st.volumes volume_id ≡ none
    → ((undone volume_id v st).volumes ≡ st.volumes)
      × ((k : DeviceKey)
          → used (undone volume_id v st).allocated k % modulus ≡ used st.allocated k % modulus)
unfolding remove_volume store_volume insert remove
remove_volume-store_volume volume_id v st e = (
  rw
      (
        beq_refl volume_id,
        remove_absent volume_id st.volumes e,
        remove_absent volume_id st.volumes e,
      )
      refl,
  λ k.
      back _ _ _ _ (charge-used k v.claim.bindings st.allocated)
        (release-used k v.claim.bindings _ (charged-HasEntry v.claim.bindings st.allocated)),
)
  where
    back :
        (x y z r : ℕ)
        → y % modulus ≡ (z + r) % modulus
        → (x + r) % modulus ≡ y % modulus
        → x % modulus ≡ z % modulus
    back x y z r h k = omega arith
