-- ===== src/DataPond/Controller/Found.antt =====
-- A volume that is provisioned is among the volumes, which have come from others by steps.
use mathlib.Core.Path.{subst}
use eecs_k8s.Prelude.{String, ◌≡◌, refl, Option, none, some}
use eecs_k8s.Prelude.Panic.{Result, ok, Yields, Yields-bind, Yields-any}
use eecs_k8s.Prelude.Dict.{string_eq, Dict, get, insert, get-insert_self}
use eecs_k8s.DataPond.Types.{Status, VolumeOptions}
use eecs_k8s.DataPond.Action.After.{After, returns, After-bind, After-lift}
use eecs_k8s.DataPond.Controller.{State, System, Volume}
use eecs_k8s.DataPond.Controller.Provision.{
  discover_bindings, validate, provision, provision_unless, unwrap_volume, get_volume_or_provision,
}
use eecs_k8s.DataPond.Controller.Spec.{
  recovered, Volumes, view, update, Step, Steps, step, view-insert, fresh_volume,
}
use eecs_k8s.DataPond.Controller.Keeps.{Holds}
use eecs_k8s.DataPond.Controller.Handler.{provisioned}

-- The volumes have come from `f` by steps.
abbrev pub Reached : Volumes → Dict String Volume → Type 0
Reached f d = Steps f (view d)

-- The same of the volumes of a system.
abbrev pub Good : Volumes → System → Type 0
Good f = Holds (λ d _. Reached f d)

-- So they have, and the volume is among them.
abbrev pub Found : Volumes → String → Volume × State → Type 0
Found f volume_id r = Reached f r.1.volumes × (get r.1.volumes volume_id ≡ some r.0)

-- The same of a volume that is only known to be there.
abbrev Stored : Volumes → String → State → Type 0
Stored f volume_id next = (v : Volume) × Found f volume_id (v, next)

yielded : {A : Type 0} (P : A → Type 0) (r : Result Status A) (a : A) → Yields P r → r ≡ ok a → P a
yielded P r a h e = subst (Yields P) e h

pub Reached-insert :
    (f : Volumes) (volume_id : String) (v : Volume) (d : Dict String Volume)
    → Reached f d
    → Step (view d) (update (view d) volume_id (some v))
    → Reached f (insert volume_id v d)
Reached-insert f volume_id v d h k = rw (view-insert volume_id v d) (step h k)

module _ (f : Volumes) (volume_id : String) (options : VolumeOptions) where
  provision-Stored :
      (st : State)
      → get st.volumes volume_id ≡ none
      → Reached f st.volumes
      → Yields (Stored f volume_id) (provision volume_id options st)
  unfolding provision
  provision-Stored st e h =
      Yields-bind (λ _. Unit) _ _ _ (Yields-any (discover_bindings volume_id st.ponds.data_of))
        (λ found _.
          Yields-bind (λ _. Unit) _ _ _ (Yields-any (validate found))
            (λ bindings _.
              let v = fresh_volume (record { bindings = bindings; options = options }) in
              (
                v,
                (
                  Reached-insert f volume_id v st.volumes h (recovered volume_id _ e),
                  get-insert_self volume_id v st.volumes,
                ),
              )))

  unless-Found :
      (o : Option Volume) (st : State)
      → get st.volumes volume_id ≡ o
      → Reached f st.volumes
      → Yields (Found f volume_id) (provision_unless o volume_id options st)
  unfolding provision_unless unwrap_volume
  unless-Found (some v) st e h = (h, e)
  unless-Found none st e h =
      Yields-bind (Stored f volume_id) (Found f volume_id) _ _ (provision-Stored st e h)
        (λ next k. rw k.1.1 k.1)

  pub provisioned-Found :
      (s : System)
      → Reached f s.state.volumes
      → After (λ v t. Found f volume_id (v, t.state)) (Good f) (provisioned volume_id options s)
  unfolding provisioned get_volume_or_provision
  provisioned-Found s h =
      let r = provision_unless (get s.state.volumes volume_id) volume_id options s.state in
      After-bind {Q = λ r _. Found f volume_id r} {P = Good f} _
        (After-lift r s (λ a e. yielded (Found f volume_id) r a (unless-Found _ s.state refl h) e)
          h)
        (λ r t k. returns k)
