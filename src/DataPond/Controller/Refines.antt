-- ===== src/DataPond/Controller/Refines.antt =====
-- The handlers of the controller take steps of its specification only.
use mathlib.Core.Path.{subst}
use eecs_k8s.Prelude.{
  Option, String, ◌≡◌, refl, sym, Bool, true, some, none, [], ◌∷◌, Bool-cases, inl, inr,
}
use eecs_k8s.Prelude.Panic.{ok}
use eecs_k8s.Prelude.Dict.{string_eq, Dict, get, insert, remove}
use eecs_k8s.DataPond.Attributes.{parse}
use eecs_k8s.DataPond.Server.{allocate_volume, deallocate_volume}
use eecs_k8s.DataPond.Action.{pure}
use eecs_k8s.DataPond.Action.After.{
  After-weaken, After, returns, Always, After-bind, After-lift, Always-bind, lift-bind,
}
use eecs_k8s.DataPond.Candidates.{DeviceKey}
use eecs_k8s.Prelude.{ℕ}
use eecs_k8s.DataPond.Controller.{
  Cluster, State, System, Volume, VolumeClaim, fetch_ponds, call_all, allocate, deallocate,
}
use eecs_k8s.DataPond.Controller.Handler.{
  unpublish_found, Driver, PublishRequest, check_mode, publish, publish_options, publish_context,
  to_dict, controller_publish_volume, unpublish_in, controller_unpublish_volume, is_empty,
  default_options, remove_volume, delete_unpublished, delete_volume,
}
use eecs_k8s.DataPond.Controller.Create.{
  CreateRequest, required_of, create_options, check_source, place_in, volume_id_of, store_volume,
  create_volume,
}
use eecs_k8s.DataPond.Controller.Spec.{
  without_node, Volumes, fresh_volume, step, created, published, unpublished, deleted, view-remove,
}
use eecs_k8s.DataPond.Controller.Spec.{with_node}
use eecs_k8s.DataPond.Controller.Checked.{
  publish-with_node, is_empty-nil, unpublish-without_node, check_mode-Admits,
}
use eecs_k8s.DataPond.Controller.Keeps.{Holds, fetch_ponds-keeps, call_all-keeps}
use eecs_k8s.DataPond.Controller.Found.{Good, Reached, Found, Reached-insert, provisioned-Found}

module _ (cluster : Cluster) (f : Volumes) where
  fetched : (s : System) → (Good f) s → Always (Good f) (fetch_ponds cluster s)
  fetched = fetch_ponds-keeps (λ d _. Reached f d) cluster

  -- The volume is found and may be published in the mode.
  abbrev Admitted : String → Bool → Volume → System → Type 0
  Admitted volume_id readonly v t = Found f volume_id (v, t.state) × (check_mode readonly v ≡ ok tt)

  publish_found :
      (volume_id node_id : String) (readonly : Bool) (v : Volume) (d : Dict String Volume)
      → Reached f d
      → get d volume_id ≡ some v
      → check_mode readonly v ≡ ok tt
      → Reached f (insert volume_id (publish node_id readonly v) d)
  publish_found volume_id node_id readonly v d h e k = rw (publish-with_node node_id readonly v) (
      Reached-insert f volume_id (with_node node_id readonly v) d h
        (published volume_id node_id readonly v e (check_mode-Admits readonly v k)))

  pub publish-Reached :
      (driver : Driver) (r : PublishRequest) (s : System)
      → (Good f) s
      → Always (Good f) (controller_publish_volume cluster driver r s)
  unfolding controller_publish_volume
  publish-Reached driver r s h = lift-bind (Good f) _ (publish_options driver r) s h λ options s k.
      lift-bind (Good f) _ (parse (r.volume_context ∷ [])) s k λ attributes s k.
        Always-bind (Good f) _ (fetch_ponds cluster s) (fetched s k) λ _ s k.
          After-bind _ (provisioned-Found f r.volume_id options s k) λ v s k.
            After-bind {Q = λ _. Admitted r.volume_id r.readonly v} _
              (After-lift (check_mode r.readonly v) s (λ _ e. (k, e)) k.0)
              λ _ s k.
                After-bind {Q = λ _. Admitted r.volume_id r.readonly v} _
                  (After-lift (to_dict driver (publish_context attributes v)) s (λ _ _. k) k.0.0)
                  λ context s k. returns (
                    publish_found r.volume_id r.node_id r.readonly v s.state.volumes k.0.0 k.0.1
                      k.1)

  allocated_fresh :
      (claim : VolumeClaim) (s : System)
      → (Good f) s
      → After (λ v t. (Good f) t × (v ≡ fresh_volume claim)) (Good f) (allocate cluster claim s)
  unfolding allocate
  allocated_fresh claim s k =
      let call = allocate_volume cluster.programs in
      Always-bind (Good f) (λ _. pure (fresh_volume claim))
        (call_all cluster call claim.options claim.bindings s)
        (call_all-keeps (λ d _. Reached f d) cluster call claim.options claim.bindings s k)
        λ _ t k. returns (k, refl)

  stored_fresh :
      (volume_id : String) (claim : VolumeClaim) (v : Volume) (st : State)
      → Reached f st.volumes
      → v ≡ fresh_volume claim
      → Reached f (insert volume_id v st.volumes)
  stored_fresh volume_id claim v st h e =
      subst (λ w. Reached f (insert volume_id w st.volumes)) (sym e)
        (Reached-insert f volume_id (fresh_volume claim) st.volumes h (created volume_id claim))

  pub create-Reached :
      (driver : Driver) (r : CreateRequest) (s : System)
      → (Good f) s
      → Always (Good f) (create_volume cluster driver r s)
  unfolding create_volume store_volume
  create-Reached driver r s h =
      lift-bind (Good f) _ (required_of r.required_bytes) s h λ required s k.
        lift-bind (Good f) _ (create_options driver r) s k λ options s k.
          lift-bind (Good f) _ (parse (r.parameters ∷ r.mutable_parameters ∷ [])) s k
            λ attributes s k. lift-bind (Good f) _ (check_source r.has_content_source) s k λ _ s k.
              Always-bind (Good f) _ (fetch_ponds cluster s) (fetched s k) λ _ s k.
                lift-bind (Good f) _ (place_in driver r required attributes s.state) s k
                  λ bindings s k.
                    After-bind _
                      (allocated_fresh (record { bindings = bindings; options = options }) s k)
                      λ v s k. returns (stored_fresh (volume_id_of r.name) _ v s.state k.0 k.1)

  removed :
      (volume_id : String) (v : Volume) (d : Dict String Volume)
      → Reached f d
      → get d volume_id ≡ some v
      → is_empty v.published_node_ids ≡ true
      → Reached f (remove volume_id d)
  removed volume_id v d h k e =
      rw (view-remove volume_id d)
        (step h (deleted volume_id v k (is_empty-nil v.published_node_ids e)))

  -- Every pond is called, and the volume is still the one that was found.
  removes :
      (volume_id : String) (v : Volume) (s : System)
      → Found f volume_id (v, s.state)
      → is_empty v.published_node_ids ≡ true
      → Always (Good f) (delete_unpublished cluster volume_id v s)
  unfolding delete_unpublished deallocate remove_volume
  removes volume_id v s k e =
      let call = deallocate_volume cluster.programs in
      let P : Dict String Volume → Dict DeviceKey ℕ → Type 0 =
        λ d _. Reached f d × (get d volume_id ≡ some v) in
      After-bind {Q = λ _. Holds P} _
        (After-weaken (call_all-keeps P cluster call v.claim.options v.claim.bindings s k)
          (λ _ p. p.0))
        λ _ t p. returns (removed volume_id v t.state.volumes p.0 p.1 e)

  pub delete-Reached :
      (volume_id : String) (s : System)
      → (Good f) s
      → Always (Good f) (delete_volume cluster volume_id s)
  unfolding delete_volume
  delete-Reached volume_id s h =
      Always-bind (Good f) _ (fetch_ponds cluster s) (fetched s h) λ _ s k.
        After-bind _ (provisioned-Found f volume_id default_options s k) λ v s k.
          elim (Bool-cases (is_empty v.published_node_ids)) [
            | inl e ↦ rw e (removes volume_id v s k e)
            | inr e ↦ rw e (After-lift _ s (λ _ _. k.0) k.0)
          ]

  unpublish_found-Reached :
      (o : Option Volume) (volume_id node_id : String) (st : State)
      → get st.volumes volume_id ≡ o
      → Reached f st.volumes
      → Reached f (unpublish_found o volume_id node_id st).volumes
  unfolding unpublish_found
  unpublish_found-Reached none volume_id node_id st e h = h
  unpublish_found-Reached (some v) volume_id node_id st e h =
      rw (unpublish-without_node node_id v) (
        Reached-insert f volume_id (without_node node_id v) st.volumes h
          (unpublished volume_id node_id v e))

  pub unpublish-Reached :
      (volume_id node_id : String) (s : System)
      → (Good f) s
      → Always (Good f) (controller_unpublish_volume cluster volume_id node_id s)
  unfolding controller_unpublish_volume unpublish_in
  unpublish-Reached volume_id node_id s h =
      Always-bind (Good f) _ (fetch_ponds cluster s) (fetched s h) λ _ s k.
        returns
          (unpublish_found-Reached (get s.state.volumes volume_id) volume_id node_id s.state refl k)
