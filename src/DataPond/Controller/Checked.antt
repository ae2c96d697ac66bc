-- ===== src/DataPond/Controller/Checked.antt =====
-- What the checks of the handlers say of a volume, and what the handlers write to it.
use eecs_k8s.Prelude.{
  String, ◌≡◌, refl, Bool, true, false, not, ◌&&◌, List, [], ◌∷◌, ◌⊎◌, inl, inr, arith,
}
use eecs_k8s.Prelude.Panic.{ok}
use eecs_k8s.Prelude.Dict.{Dict, string_eq, remove}
use eecs_k8s.DataPond.Controller.{Volume}
use eecs_k8s.DataPond.Controller.Handler.{check_mode, publish, unpublish, is_empty}
use eecs_k8s.DataPond.Controller.Spec.{Admits, with_node, without_node, mode_left}

pub empty-or {ℓ} : {A : Type ℓ} (xs : List A) → (xs ≡ []) ⊎ (is_empty xs ≡ false)
unfolding is_empty
empty-or [] = inl refl
empty-or (x ∷ xs) = inr refl

pub is_empty-nil {ℓ} : {A : Type ℓ} (xs : List A) → is_empty xs ≡ true → xs ≡ []
unfolding is_empty
is_empty-nil [] h = refl
is_empty-nil (x ∷ xs) h = cc

same_mode :
    (readonly : Bool) (v : Volume)
    → v.claim.options.mount_shared ≡ false
    → check_mode readonly v ≡ ok tt
    → is_empty v.published_node_ids ≡ false
    → readonly ≡ v.readonly
unfolding check_mode
same_mode readonly v h k e = ground arith

pub check_mode-Admits :
    (readonly : Bool) (v : Volume) → check_mode readonly v ≡ ok tt → Admits readonly v
check_mode-Admits readonly v h u = elim (empty-or v.published_node_ids) [
  | inl e ↦ inl e
  | inr e ↦ inr (same_mode readonly v u h e)
]

pub publish-with_node :
    (node_id : String) (readonly : Bool) (v : Volume)
    → publish node_id readonly v ≡ with_node node_id readonly v
unfolding publish
publish-with_node node_id readonly v = refl

pub mode_left-is_empty :
    (d : Dict String (Unit {0})) (readonly : Bool)
    → (readonly && not (is_empty d)) ≡ mode_left d readonly
unfolding is_empty
mode_left-is_empty [] readonly = ground arith
mode_left-is_empty (n ∷ ns) readonly = ground arith

pub unpublish-without_node :
    (node_id : String) (v : Volume) → unpublish node_id v ≡ without_node node_id v
unfolding unpublish
unpublish-without_node node_id v =
    rw (mode_left-is_empty (remove node_id v.published_node_ids) v.readonly) refl
