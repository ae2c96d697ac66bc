-- ===== src/DataPond/Controller/Effects.antt =====
-- What a volume's creation and deletion do to the state, both when they succeed and when they fail.
use eecs_k8s.Prelude.{ap, ℕ, String, ◌≡◌, refl, ◌∙◌, true, some, [], ◌∷◌, Bool-cases, inl, inr}
use eecs_k8s.Prelude.Panic.{ok}
use eecs_k8s.Prelude.Dict.{string_eq, Dict, get, insert, remove}
use eecs_k8s.DataPond.Attributes.{VolumeAttributes, parse}
use eecs_k8s.DataPond.Candidates.{DeviceKey, device_key_eq}
use eecs_k8s.DataPond.Server.{allocate_volume, deallocate_volume}
use eecs_k8s.DataPond.Action.{pure}
use eecs_k8s.DataPond.Action.After.{
  After, returns, fails, Always, After-bind, After-lift, Always-bind, lift-bind,
}
use eecs_k8s.DataPond.Controller.{
  Cluster, State, System, Volume, VolumeClaim, fetch_ponds, call_all, allocate, deallocate,
}
use eecs_k8s.DataPond.Controller.Handler.{
  release, Driver, is_empty, default_options, remove_volume, delete_unpublished, delete_volume,
  provisioned,
}
use eecs_k8s.DataPond.Controller.Provision.{get_volume_or_provision, provision_unless}
use eecs_k8s.DataPond.Controller.Create.{
  charge, CreateRequest, CreatedVolume, required_of, create_options, check_source, place_in,
  volume_id_of, store_volume, create_volume, created,
}
use eecs_k8s.Prelude.{◌+◌, ◌%◌, none, is_some, All}
use mathlib.Core.Path.{subst}
use eecs_k8s.Prelude.I64.{modulus}
use eecs_k8s.DataPond.Controller.Checked.{is_empty-nil}
use eecs_k8s.DataPond.Controller.Accounts.Released.{release-used_at, release-none}
use eecs_k8s.DataPond.Controller.Accounts.{used, reserved_on, charge-used}
use eecs_k8s.DataPond.Controller.Create.Begin.{Begins, place_in-Begins}
use eecs_k8s.DataPond.Controller.Spec.{fresh_volume}
use eecs_k8s.DataPond.Controller.Keeps.{Holds, fetch_ponds-keeps, call_all-keeps}

module _ (cluster : Cluster) (volumes : Dict String Volume) (allocated : Dict DeviceKey ℕ) where
  abbrev Is : Dict String Volume → Dict DeviceKey ℕ → Type 0
  Is d a = (d ≡ volumes) × (a ≡ allocated)

  -- The controller has these volumes, and this much allocated.
  abbrev pub Unchanged : System → Type 0
  Unchanged = Holds Is

  fetched : (s : System) → Unchanged s → Always Unchanged (fetch_ponds cluster s)
  fetched = fetch_ponds-keeps Is cluster

  module _ (driver : Driver) (r : CreateRequest) where
    -- The volume is stored, with bindings that were placed, each from where a device of its pond was
    -- allocated to, and every device is charged what they reserve of it.
    pub record Created (c : CreatedVolume) (t : System) : Type 0 where
      pub required : ℕ
      pub attributes : VolumeAttributes
      pub st : State
      pub claim : VolumeClaim
      pub answered : c ≡ created required (volume_id_of r.name) attributes claim.bindings
      pub beyond : st.allocated ≡ allocated
      pub begin : All (Begins allocated st.ponds.data_of) claim.bindings
      pub placed : place_in driver r required attributes st ≡ ok claim.bindings
      pub stored : t.state.volumes ≡ insert (volume_id_of r.name) (fresh_volume claim) volumes
      pub computed : t.state.allocated ≡ charge claim.bindings allocated
      pub charged :
          (k : DeviceKey)
          → used t.state.allocated k % modulus
            ≡ (used allocated k + reserved_on k claim.bindings) % modulus

    allocated_here :
        (claim : VolumeClaim) (s : System)
        → Unchanged s
        → After (λ v t. Unchanged t × (v ≡ fresh_volume claim)) Unchanged (allocate cluster claim s)
    unfolding allocate
    allocated_here claim s k =
        let call = allocate_volume cluster.programs in
        Always-bind Unchanged (λ _. pure (fresh_volume claim))
          (call_all cluster call claim.options claim.bindings s)
          (call_all-keeps Is cluster call claim.options claim.bindings s k)
          λ _ t k. returns (k, refl)

    -- Creating a volume either fails, with the volumes and what is allocated as they were, or
    -- stores it with bindings that begin where what was allocated before ends, and adds to what is
    -- allocated on each device exactly the bytes that they reserve of it, modulo 2 ^ 64.
    pub create_volume-Created :
        (s : System)
        → s.state.volumes ≡ volumes
        → s.state.allocated ≡ allocated
        → After Created Unchanged (create_volume cluster driver r s)
    unfolding create_volume store_volume
    create_volume-Created s h i =
        lift-bind Unchanged _ (required_of r.required_bytes) s (h, i)
          λ required s k. lift-bind Unchanged _ (create_options driver r) s k λ options s k.
            lift-bind Unchanged _ (parse (r.parameters ∷ r.mutable_parameters ∷ [])) s k
              λ attributes s k.
                lift-bind Unchanged _ (check_source r.has_content_source) s k λ _ s k.
                  Always-bind Unchanged _ (fetch_ponds cluster s) (fetched s k) λ _ s k.
                    After-bind
                      {Q = λ bindings t.
                        Unchanged t × (place_in driver r required attributes s.state ≡ ok bindings)}
                      _
                      (After-lift (place_in driver r required attributes s.state) s (λ _ e. (k, e))
                        k)
                      λ bindings t p.
                        After-bind _
                          (allocated_here (record { bindings = bindings; options = options }) t p.0)
                          λ v u q. returns (record {
                            required = required;
                            attributes = attributes;
                            st = s.state;
                            claim = record { bindings = bindings; options = options };
                            answered = refl;
                            beyond = k.1;
                            begin =
                                subst (λ a. All (Begins a s.state.ponds.data_of) bindings) k.1
                                  (place_in-Begins driver r required attributes s.state bindings
                                    p.1);
                            placed = p.1;
                            stored = rw (q.1, q.0.0) refl;
                            computed = rw (q.1, q.0.1) refl;
                            charged = λ key. rw (q.1, q.0.1) (charge-used key bindings allocated);
                          })

  module _ (volume_id : String) (v : Volume) where
    -- The volume is gone, and was published to no node.
    pub record Removed (t : System) : Type 0 where
      pub unpublished : v.published_node_ids ≡ []
      pub gone : t.state.volumes ≡ remove volume_id volumes
      pub computed : t.state.allocated ≡ release v.claim.bindings allocated
      pub released :
          (k : DeviceKey)
          → is_some (get allocated k) ≡ true
          → (used t.state.allocated k + reserved_on k v.claim.bindings) % modulus
            ≡ used allocated k % modulus
      pub untracked : (k : DeviceKey) → get allocated k ≡ none → get t.state.allocated k ≡ none

    removes :
        (s : System)
        → Unchanged s
        → is_empty v.published_node_ids ≡ true
        → After (λ _. Removed) Unchanged (delete_unpublished cluster volume_id v s)
    unfolding delete_unpublished deallocate remove_volume
    removes s k e =
        let call = deallocate_volume cluster.programs in
        Always-bind Unchanged _ (call_all cluster call v.claim.options v.claim.bindings s)
          (call_all-keeps Is cluster call v.claim.options v.claim.bindings s k)
          λ _ t p. returns (record {
            unpublished = is_empty-nil v.published_node_ids e;
            gone = rw p.0 refl;
            computed = rw p.1 refl;
            released = λ k h. rw p.1 (release-used_at k v.claim.bindings allocated h);
            untracked = λ k h. rw p.1 (release-none k v.claim.bindings allocated h);
          })

    found_here :
        (s : System)
        → Unchanged s
        → get volumes volume_id ≡ some v
        → After (λ w t. Unchanged t × (w ≡ v)) Unchanged (provisioned volume_id default_options s)
    unfolding provisioned get_volume_or_provision provision_unless
    found_here s k e =
        let here : get s.state.volumes volume_id ≡ some v = ap (λ d. get d volume_id) k.0 ∙ e in
        rw here (returns (k, refl))

    -- Deleting a volume that the controller holds either fails, with the volumes and what is
    -- allocated as they were, or it was published to no node and is removed, and from what is
    -- allocated on each device that has an account goes exactly what its bindings reserve of it,
    -- modulo 2 ^ 64; a device without an account gets none.
    pub delete_volume-Removed :
        (s : System)
        → s.state.volumes ≡ volumes
        → s.state.allocated ≡ allocated
        → get volumes volume_id ≡ some v
        → After (λ _. Removed) Unchanged (delete_volume cluster volume_id s)
    unfolding delete_volume
    delete_volume-Removed s h i e =
        Always-bind Unchanged _ (fetch_ponds cluster s) (fetched s (h, i)) λ _ s k.
          After-bind _ (found_here s k e) λ w t p.
            rw p.1 (elim (Bool-cases (is_empty v.published_node_ids)) [
              | inl e ↦ rw e (removes t p.0 e)
              | inr e ↦ rw e (fails p.0)
            ])
