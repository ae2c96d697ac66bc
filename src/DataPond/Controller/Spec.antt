-- ===== src/DataPond/Controller/Spec.antt =====
-- The volumes as a function of their ids, and the steps that a request may take on it.
use mathlib.Core.Path.{fun_ext}
use eecs_k8s.Prelude.{
  String, str_eq, ◌≡◌, Bool, false, Option, none, some, [], Bool-cases, inl, inr, if◌then◌else◌,
  ◌||◌, ◌⊎◌,
}
use eecs_k8s.Prelude.Dict.{
  Dict, string_eq, get, insert, remove, get-insert_self, get-insert_ne, get-remove_self,
  get-remove_ne,
}
use eecs_k8s.DataPond.Controller.{◌∷◌, Volume, VolumeClaim}

abbrev pub Volumes : Type 0
Volumes = String → Option Volume

abbrev pub view : Dict String Volume → Volumes
view d = λ volume_id. get d volume_id

abbrev pub update : Volumes → String → Option Volume → Volumes
update f volume_id w = λ key. if str_eq key volume_id then w else f key

abbrev pub fresh_volume : VolumeClaim → Volume
fresh_volume claim = record { claim = claim; published_node_ids = []; readonly = false }

-- A volume that is not shared takes a node in the mode of the nodes that it has.
abbrev pub Admits : (readonly : Bool) → Volume → Type 0
Admits readonly v =
    v.claim.options.mount_shared ≡ false → (v.published_node_ids ≡ []) ⊎ (readonly ≡ v.readonly)

abbrev pub with_node : (node_id : String) → (readonly : Bool) → Volume → Volume
with_node node_id readonly v = record v {
  published_node_ids = insert node_id tt v.published_node_ids;
  readonly = v.readonly || readonly;
}

-- The mode of a volume with these nodes: one with none is for writing.
abbrev pub mode_left : Dict String (Unit {0}) → (readonly : Bool) → Bool
mode_left [] readonly = false
mode_left (n ∷ ns) readonly = readonly

abbrev pub without_node : (node_id : String) → Volume → Volume
without_node node_id v = record v {
  published_node_ids = remove node_id v.published_node_ids;
  readonly = mode_left (remove node_id v.published_node_ids) v.readonly;
}

pub data Step (f : Volumes) : Volumes → Type 0 where
  created :
      (volume_id : String) (claim : VolumeClaim)
      → Step f (update f volume_id (some (fresh_volume claim)))
  recovered :
      (volume_id : String) (claim : VolumeClaim)
      → f volume_id ≡ none
      → Step f (update f volume_id (some (fresh_volume claim)))
  published :
      (volume_id node_id : String) (readonly : Bool) (v : Volume)
      → f volume_id ≡ some v
      → Admits readonly v
      → Step f (update f volume_id (some (with_node node_id readonly v)))
  unpublished :
      (volume_id node_id : String) (v : Volume)
      → f volume_id ≡ some v
      → Step f (update f volume_id (some (without_node node_id v)))
  deleted :
      (volume_id : String) (v : Volume)
      → f volume_id ≡ some v
      → v.published_node_ids ≡ []
      → Step f (update f volume_id none)

-- Any number of steps.
pub data Steps (f : Volumes) : Volumes → Type 0 where
  stay : Steps f f
  step : {g h : Volumes} → Steps f g → Step g h → Steps f h

pub view-insert :
    (volume_id : String) (v : Volume) (d : Dict String Volume)
    → view (insert volume_id v d) ≡ update (view d) volume_id (some v)
view-insert volume_id v d = fun_ext λ key. elim (Bool-cases (str_eq key volume_id)) [
  | inl e ↦ rw (e, (string_eq.beq_iff key volume_id).0 e) (get-insert_self volume_id v d)
  | inr e ↦ rw e (get-insert_ne volume_id key v d e)
]

pub view-remove :
    (volume_id : String) (d : Dict String Volume)
    → view (remove volume_id d) ≡ update (view d) volume_id none
view-remove volume_id d = fun_ext λ key. elim (Bool-cases (str_eq key volume_id)) [
  | inl e ↦ rw (e, (string_eq.beq_iff key volume_id).0 e) (get-remove_self volume_id d)
  | inr e ↦ rw e (get-remove_ne volume_id key d e)
]
