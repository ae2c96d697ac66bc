-- ===== src/Vine/Operator/Chosen.antt =====
-- The binding and the profile that `reconcile` chooses, and the session that is bound to them.
use eecs_k8s.Prelude.{
  false, Bool, String, str_eq, true, ◌&&◌, ◌≡◌, refl, inl, inr, Option, none, some, List, [], ◌∷◌,
  All, Bool-cases,
}
use eecs_k8s.Prelude.{eq_iff, ap, ◌≢◌, is_some, unwrap_or, not}
use eecs_k8s.Prelude.Select.{all}
use eecs_k8s.Prelude.Dict.{string_eq, Dict, get}
use eecs_k8s.Vine.Operator.{has_value, is_selected}
use eecs_k8s.Prelude.{clash}
use eecs_k8s.Prelude.Panic.{Result}
use eecs_k8s.Prelude.Panic as Panic
use eecs_k8s.Prelude.Flow.{ok, ◌>>=◌, pure}
use eecs_k8s.Prelude.Select.{filter, filter-All}
use eecs_k8s.Vine.Session.{SessionBinding, SessionProfile, Node}
use eecs_k8s.Vine.Session.Changes.{
  same_text, bind_metadata, NodeSession, ProfileState, changed, created, deleted, unchanged,
  apply_profile, profile_state,
}
use eecs_k8s.Vine.Session.Metadata.{Metadata}
use eecs_k8s.Vine.Operator.{
  Context, attempt, is_candidate, least_from, least, compare_bindings, is_less, zip_profile,
}
use eecs_k8s.Vine.Operator.Reconcile.{find_profile, choose}

least_from-holds :
    (P : SessionBinding → Type 0) (best : SessionBinding) (bs : List SessionBinding)
    → P best
    → All P bs
    → P (least_from best bs)
unfolding least_from
least_from-holds P best [] h k = h
least_from-holds P best (b ∷ bs) h k = elim (Bool-cases (is_less (compare_bindings b best))) [
  | inl e ↦ rw e (least_from-holds P b bs k.0 k.1)
  | inr e ↦ rw e (least_from-holds P best bs h k.1)
]

abbrev IsLeast : (SessionBinding → Type 0) → Option SessionBinding → Type 0
IsLeast P none = Unit
IsLeast P (some b) = P b

least-holds :
    (P : SessionBinding → Type 0) (bs : List SessionBinding) → All P bs → IsLeast P (least bs)
unfolding least
least-holds P [] k = tt
least-holds P (b ∷ bs) k = least_from-holds P b bs k.0 k.1

-- What a selector asks for is among the labels.
abbrev pub Matches : (labels selector : Option (Dict String String)) → Type 0
Matches labels none = Unit
Matches (some labels) (some selector) = All (λ e. get labels e.0 ≡ some e.1) selector
Matches none (some selector) = selector ≡ []

has_value-eq : (o : Option String) (v : String) → has_value o v ≡ true → o ≡ some v
has_value-eq none v h = cc
has_value-eq (some t) v h = ap some ((eq_iff t v).0 h)

all-Matches :
    (labels selector : Dict String String)
    → all (λ s. has_value (get labels s.0) s.1) selector ≡ true
    → All (λ e. get labels e.0 ≡ some e.1) selector
unfolding all
all-Matches labels [] h = tt
all-Matches labels (e ∷ es) h = elim (Bool-cases (has_value (get labels e.0) e.1)) [
  | inl k ↦ (has_value-eq (get labels e.0) e.1 k, all-Matches labels es (rw k at h))
  | inr k ↦ absurd (clash {A = ⊥} (rw k at h) refl)
]

is_selected-Matches :
    (labels selector : Option (Dict String String))
    → is_selected labels selector ≡ true
    → Matches labels selector
unfolding is_selected
is_selected-Matches labels none h = tt
is_selected-Matches (some labels) (some selector) h = all-Matches labels selector h
is_selected-Matches none (some []) h = refl
is_selected-Matches none (some (e ∷ es)) h = cc

-- The binding is not being deleted, is not disabled, and selects the node.
abbrev pub IsEligible : Option (Dict String String) → SessionBinding → Type 0
IsEligible labels b =
    (b.deletion_timestamp ≡ none) × (b.enabled ≢ some false) × Matches labels b.node_selector

both : (a b : Bool) → (a && b) ≡ true → (a ≡ true) × (b ≡ true)
both true b h = (refl, h)
both false b h = cc

not_some : {A : Type 0} (o : Option A) → not (is_some o) ≡ true → o ≡ none
not_some none h = refl
not_some (some a) h = cc

not_disabled : (o : Option Bool) → unwrap_or o true ≡ true → o ≢ some false
not_disabled none h k = cc
not_disabled (some e) h k = cc

is_candidate-IsEligible :
    (labels : Option (Dict String String)) (b : SessionBinding)
    → is_candidate labels b ≡ true
    → IsEligible labels b
unfolding is_candidate
is_candidate-IsEligible labels b h =
    let (de, m) = both (not (is_some b.deletion_timestamp) && unwrap_or b.enabled true) _ h in
    let (d, e) = both (not (is_some b.deletion_timestamp)) (unwrap_or b.enabled true) de in
    (
      not_some b.deletion_timestamp d,
      not_disabled b.enabled e,
      is_selected-Matches labels b.node_selector m,
    )

module _ (ctx : Context) (node : Node) where
  -- A binding that selects the node, with its profile.
  abbrev pub IsChosen : SessionBinding → SessionProfile → Type 0
  IsChosen b p = IsEligible node.labels b × (ctx.profile_of b.profile ≡ Panic.ok (some p))

  abbrev pub Chosen : Option (SessionBinding × SessionProfile) → Type 0
  Chosen none = Unit
  Chosen (some (b, p)) = IsChosen b p

  zipped-Chosen :
      (b : SessionBinding) (r : Result String (Option SessionProfile))
      (c : Option (SessionBinding × SessionProfile))
      → is_candidate node.labels b ≡ true
      → ctx.profile_of b.profile ≡ r
      → (attempt r >>= λ p. pure (zip_profile b p)).0 ≡ ok c
      → Chosen c
  zipped-Chosen b (Panic.ok none) c h k e = let q : c ≡ none = cc in rw q tt
  zipped-Chosen b (Panic.ok (some p)) c h k e =
      let q : c ≡ some (b, p) = cc in rw q (is_candidate-IsEligible node.labels b h, k)
  zipped-Chosen b (Panic.err x) c h k e = cc
  zipped-Chosen b Panic.panic c h k e = cc

  found-Chosen :
      (o : Option SessionBinding) (c : Option (SessionBinding × SessionProfile))
      → IsLeast (λ b. is_candidate node.labels b ≡ true) o
      → (find_profile ctx o).0 ≡ ok c
      → Chosen c
  found-Chosen none none h e = tt
  found-Chosen none (some c) h e = cc
  found-Chosen (some b) c h e = zipped-Chosen b (ctx.profile_of b.profile) c h refl e

  listed-Chosen :
      (r : Result String (List SessionBinding)) (c : Option (SessionBinding × SessionProfile))
      → (attempt r >>= λ bs. find_profile ctx (least (filter (is_candidate node.labels) bs))).0
        ≡ ok c
      → Chosen c
  listed-Chosen (Panic.ok bs) c e =
      found-Chosen (least (filter (is_candidate node.labels) bs)) c
        (least-holds _ (filter (is_candidate node.labels) bs)
          (filter-All (is_candidate node.labels) bs))
        e
  listed-Chosen (Panic.err x) c e = cc
  listed-Chosen Panic.panic c e = cc

  pub choose-Chosen :
      (c : Option (SessionBinding × SessionProfile)) → (choose ctx node).0 ≡ ok c → Chosen c
  unfolding choose
  choose-Chosen c e = listed-Chosen ctx.bindings c e

  -- Of the state of the profile: what holds of the session that it comes with.
  abbrev pub Backed : ProfileState → NodeSession → Type 0
  Backed (created b p) s =
      IsChosen b p × (s.metadata.bind ≡ some true) × (s.metadata.bind_profile ≡ some b.profile)
  Backed (unchanged b p) s =
      IsChosen b p × (s.metadata.bind ≡ some true) × (s.metadata.bind_profile ≡ some b.profile)
  Backed (changed _) s = Unit
  Backed (deleted _) s = Unit

  profile_state-Backed :
      (last : Option String) (b : SessionBinding) (p : SessionProfile) (m : Metadata)
      (s : NodeSession)
      → IsChosen b p
      → s.metadata.bind ≡ some true
      → s.metadata.bind_profile ≡ some b.profile
      → Backed (profile_state ctx.args last b p m) s
  unfolding profile_state
  profile_state-Backed none b p m s c h k = (c, h, k)
  profile_state-Backed (some last) b p m s c h k =
      elim (Bool-cases (str_eq last b.profile && same_text m.bind_revision p.resource_version)) [
        | inl e ↦ rw e (c, h, k)
        | inr e ↦ rw e tt
      ]

  pub apply_profile-Backed :
      (c : Option (SessionBinding × SessionProfile)) (s : NodeSession)
      → Chosen c
      → Backed (apply_profile ctx.args c ctx.now s).1 (apply_profile ctx.args c ctx.now s).0
  unfolding apply_profile bind_metadata
  apply_profile-Backed none s h = tt
  apply_profile-Backed (some (b, p)) s h =
      profile_state-Backed s.metadata.bind_profile b p s.metadata _ h refl refl
