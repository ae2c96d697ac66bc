-- ===== src/DataPond/Controller/Exclusive.antt =====
-- Readers and writers of a volume that is not shared.
use mathlib.Core.Path.{subst}
use eecs_k8s.Prelude.{
  String, str_eq, ◌≡◌, refl, sym, ◌∙◌, ap, Bool, true, false, ◌||◌, List, [], ◌∷◌, map, All, arith,
  Bool-cases, inl, inr, if◌then◌else◌,
}
use eecs_k8s.Prelude.Dict.{Dict, string_eq, insert, remove}
use eecs_k8s.DataPond.Controller.{Volume, VolumeClaim}
use eecs_k8s.DataPond.Controller.Handler.{publish, is_empty}
use eecs_k8s.DataPond.Controller.Spec.{fresh_volume, Admits, with_node, without_node, mode_left}

-- How a volume has come to be since it was created or recovered: the nodes that it took and lost, with
-- the mode of each.
pub data History : Volume → Dict String Bool → Type 0 where
  fresh : (claim : VolumeClaim) → History (fresh_volume claim) []
  published :
      {v : Volume} {modes : Dict String Bool} (node_id : String) (readonly : Bool)
      → History v modes
      → Admits readonly v
      → History (with_node node_id readonly v) (insert node_id readonly modes)
  unpublished :
      {v : Volume} {modes : Dict String Bool} (node_id : String)
      → History v modes
      → History (without_node node_id v) (remove node_id modes)

abbrev pub keys : {V : Type 0} → Dict String V → List String
keys d = map (λ e. e.0) d

remove_key : String → List String → List String
remove_key k [] = []
remove_key k (l ∷ ls) = if str_eq k l then remove_key k ls else l ∷ remove_key k ls

keys-remove :
    {V : Type 0} (k : String) (d : Dict String V) → keys (remove k d) ≡ remove_key k (keys d)
unfolding remove remove_key
keys-remove k [] = refl
keys-remove k ((l, v) ∷ d) = elim (Bool-cases (str_eq k l)) [
  | inl e ↦ rw e (keys-remove k d)
  | inr e ↦ rw e (ap (λ ls. l ∷ ls) (keys-remove k d))
]

remove-All :
    {V : Type 0} (P : V → Type 0) (k : String) (d : Dict String V)
    → All (λ e. P e.1) d
    → All (λ e. P e.1) (remove k d)
unfolding remove
remove-All P k [] h = tt
remove-All P k ((l, v) ∷ d) h = elim (Bool-cases (str_eq k l)) [
  | inl e ↦ rw e (remove-All P k d h.1)
  | inr e ↦ rw e (h.0, remove-All P k d h.1)
]

-- All the nodes are in one mode.
abbrev pub InMode : Bool → Dict String Bool → Type 0
InMode r modes = All (λ e. e.1 ≡ r) modes

remove-InMode :
    (r : Bool) (node_id : String) (modes : Dict String Bool)
    → InMode r modes
    → InMode r (remove node_id modes)
remove-InMode r n modes h = remove-All (λ m. m ≡ r) n modes h

none-InMode : (r : Bool) (modes : Dict String Bool) → is_empty modes ≡ true → InMode r modes
unfolding is_empty
none-InMode r [] h = tt
none-InMode r (e ∷ d) h = cc

pub record Consistent (v : Volume) (modes : Dict String Bool) : Type 0 where
  pub same_nodes : keys modes ≡ keys v.published_node_ids
  pub same_mode : v.claim.options.mount_shared ≡ false → InMode v.readonly modes
  pub idle : is_empty v.published_node_ids ≡ true → v.readonly ≡ false

is_empty-keys : {V : Type 0} (d : Dict String V) → is_empty (keys d) ≡ is_empty d
unfolding is_empty
is_empty-keys [] = refl
is_empty-keys (e ∷ d) = refl

empty-keys :
    {V W : Type 0} (d : Dict String V) (b : Dict String W)
    → keys d ≡ keys b
    → is_empty d ≡ is_empty b
empty-keys d b h = sym (is_empty-keys d) ∙ ap is_empty h ∙ is_empty-keys b

one_mode :
    (node_id : String) (r q : Bool) (modes : Dict String Bool)
    → r ≡ q
    → InMode r modes
    → InMode q (insert node_id r modes)
unfolding insert
one_mode n r q modes e h =
    subst (λ p. InMode p (insert n r modes)) e (refl, remove-All (λ m. m ≡ r) n modes h)

publish-Consistent :
    (v : Volume) (modes : Dict String Bool) (node_id : String) (readonly : Bool)
    → Consistent v modes
    → Admits readonly v
    → Consistent (with_node node_id readonly v) (insert node_id readonly modes)
unfolding publish insert is_empty
publish-Consistent v modes n r c k = record {
  same_nodes =
      ap (λ ls. n ∷ ls)
        (keys-remove n modes
          ∙ ap (remove_key n) c.same_nodes
          ∙ sym (keys-remove n v.published_node_ids));
  same_mode = λ u. elim (k u) [
    | inl e ↦
        let no : is_empty v.published_node_ids ≡ true = rw e refl in
        one_mode n r (v.readonly || r) modes (rw (c.idle no) refl)
          (none-InMode r modes (empty-keys modes v.published_node_ids c.same_nodes ∙ no))
    | inr m ↦
        one_mode n r (v.readonly || r) modes (ground arith)
          (subst (λ q. InMode q modes) (sym m) (c.same_mode u))
  ];
  idle = λ e. cc;
}

mode_left_none : (d : Dict String (Unit {0})) (r : Bool) → is_empty d ≡ true → mode_left d r ≡ false
unfolding is_empty
mode_left_none [] r h = refl
mode_left_none (n ∷ ns) r h = cc

mode_left_some : (d : Dict String (Unit {0})) (r : Bool) → is_empty d ≡ false → mode_left d r ≡ r
unfolding is_empty
mode_left_some [] r h = cc
mode_left_some (n ∷ ns) r h = refl

unpublish-Consistent :
    (v : Volume) (modes : Dict String Bool) (node_id : String)
    → Consistent v modes
    → Consistent (without_node node_id v) (remove node_id modes)
unpublish-Consistent v modes n c =
    let k =
      keys-remove n modes
      ∙ ap (remove_key n) c.same_nodes
      ∙ sym (keys-remove n v.published_node_ids) in
    let ids = remove n v.published_node_ids in
    record {
      same_nodes = k;
      same_mode = λ u. elim (Bool-cases (is_empty ids)) [
        | inl e ↦
            none-InMode (mode_left ids v.readonly) (remove n modes)
              (empty-keys (remove n modes) ids k ∙ e)
        | inr e ↦
            subst (λ q. InMode q (remove n modes)) (sym (mode_left_some ids v.readonly e))
              (remove-InMode v.readonly n modes (c.same_mode u))
      ];
      idle = λ e. mode_left_none ids v.readonly e;
    }

pub History-Consistent :
    {v : Volume} {modes : Dict String Bool} → History v modes → Consistent v modes
History-Consistent (fresh claim) = record {
  same_nodes = refl;
  same_mode = λ u. tt;
  idle = λ e. refl;
}
History-Consistent (published {v = v} {modes = modes} n r h k) =
    publish-Consistent v modes n r (History-Consistent h) k
History-Consistent (unpublished {v = v} {modes = modes} n h) =
    unpublish-Consistent v modes n (History-Consistent h)
