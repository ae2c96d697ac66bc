-- ===== src/Vine/Operator/Granted.antt =====
-- What `reconcile` does to the application and to the node is granted by what it has read.
use eecs_k8s.Prelude.{
  ℕ, String, Bool, true, false, not, ◌&&◌, ◌||◌, ◌≡◌, refl, ◌⊎◌, inl, inr, Option, none, some, All,
  Bool-cases, clash, if◌then◌else◌,
}
use eecs_k8s.Prelude.Panic.{Result}
use eecs_k8s.Prelude.Panic as Panic
use eecs_k8s.Prelude.Flow.{ok, pure, call, All-bind, All-if}
use eecs_k8s.Prelude.Select.{filter}
use eecs_k8s.Vine.Session.{SessionBinding, SessionProfile, Node}
use eecs_k8s.Vine.Session.Equality.{same_session}
use eecs_k8s.Vine.Session.Changes.{
  unbind_metadata, NodeSession, ProfileState, changed, created, deleted, unchanged, has_changed,
  not_ready, remove_session_revision, load, signing_out, apply_profile, set_sign_out,
}
use eecs_k8s.Vine.Operator.{
  apply_node, Action, Event, created_app, deleted_app, patched_node, reported, Context, attempt,
  is_candidate, least,
}
use eecs_k8s.Vine.Operator.Reconcile.{
  sync_app, find_profile, choose, is_node_ready, create_app, delete_app, grant_app, update_app,
  is_app_deleting, store, settled, finish, drain, wait, reconcile, exported_app,
}
use eecs_k8s.Vine.Operator.Chosen.{IsChosen, choose-Chosen, Backed, apply_profile-Backed}

module _ (ctx : Context) (node : Node) where
  -- The session is bound to the profile and signed in; the node was not signing out, and no application
  -- was waited for.
  pub record Grant (s : NodeSession) (b : SessionBinding) (p : SessionProfile) : Type 0 where
    pub chosen : IsChosen ctx node b p
    pub bound : s.metadata.bind ≡ some true
    pub profiled : s.metadata.bind_profile ≡ some b.profile
    pub signed_in : s.metadata.signed_out ≡ some false
    pub idle : signing_out ctx.args ctx.now (load ctx.texts ctx.args node) ≡ none
    pub synced : (sync_app ctx).0 ≡ ok true

  -- The session is signed in, or is signed out and has neither a profile nor a user.
  abbrev pub IsSigned : NodeSession → Type 0
  IsSigned s =
      (s.metadata.signed_out ≡ some false)
      ⊎ ((s.metadata.signed_out ≡ some true)
          × (s.metadata.bind_profile ≡ none)
          × (s.metadata.bind_user ≡ none))

  abbrev pub Granted : Event → Type 0
  Granted (created_app s b p) = Grant s b p × (is_node_ready ctx s p ≡ true)
  Granted deleted_app = Unit
  Granted (patched_node s) =
      (s ≡ remove_session_revision (load ctx.texts ctx.args node)) ⊎ IsSigned s
  Granted (reported m) = Unit

  attempt-Granted : {A : Type 0} (r : Result String A) → All Granted (attempt r).1
  attempt-Granted (Panic.ok a) = tt
  attempt-Granted (Panic.err e) = tt
  attempt-Granted Panic.panic = tt

  call-Granted :
      (ev : Event) (e : Option String) → Granted ev → All Granted (call {R = Action} ev e).1
  call-Granted ev none h = (h, tt)
  call-Granted ev (some e) h = tt

  exported-Granted : (o : Option String) → All Granted (exported_app ctx o).1
  exported-Granted none = tt
  exported-Granted (some e) = tt

  module _ (idle : signing_out ctx.args ctx.now (load ctx.texts ctx.args node) ≡ none)
      (synced : (sync_app ctx).0 ≡ ok true) where
    create-Granted :
        (s : NodeSession) (b : SessionBinding) (p : SessionProfile)
        → Grant s b p
        → All Granted (create_app ctx s b p).1
    unfolding create_app
    create-Granted s b p g = elim (Bool-cases (is_node_ready ctx s p)) [
      | inl e ↦ rw e (
          All-bind Granted (exported_app ctx ctx.exported) _ (exported-Granted ctx.exported) λ _ _.
            All-bind Granted (attempt ctx.app_metadata) _ (attempt-Granted ctx.app_metadata)
              λ exists _. All-bind Granted _ _ (when exists (g, e)) λ _ _. tt)
      | inr e ↦ rw e tt
    ]
      where
        when :
            (exists : Bool)
            → Granted (created_app s b p)
            → All Granted
                (if exists
                  then pure {Ev = Event} {E = String} {R = Action} tt
                  else call (created_app s b p) ctx.create_result).1
        when true h = tt
        when false h = call-Granted (created_app s b p) ctx.create_result h

    delete-Granted : All Granted (delete_app ctx).1
    unfolding delete_app
    delete-Granted =
        All-bind Granted (attempt ctx.app_metadata) _ (attempt-Granted ctx.app_metadata) λ exists _.
          All-if Granted exists _ _
            (λ _. All-bind Granted _ _ (call-Granted deleted_app ctx.delete_result tt) λ _ _. tt)
            λ _. tt

    -- What is granted once the session is signed in.
    abbrev MayCreate : ProfileState → NodeSession → Type 0
    MayCreate (created b p) s = Grant s b p
    MayCreate (unchanged b p) s = Grant s b p
    MayCreate (changed _) s = Unit
    MayCreate (deleted _) s = Unit

    grant_app-Granted :
        (grant : Bool) (s : NodeSession) (b : SessionBinding) (p : SessionProfile)
        → (grant ≡ true → Grant s b p)
        → All Granted (grant_app ctx grant s b p).1
    unfolding grant_app
    grant_app-Granted true s b p k = create-Granted s b p (k refl)
    grant_app-Granted false s b p k = delete-Granted

    update-Granted :
        (state : ProfileState) (grant : Bool) (s : NodeSession)
        → (grant ≡ true → MayCreate state s)
        → All Granted (update_app ctx state grant s).1
    unfolding update_app
    update-Granted (changed _) grant s k = delete-Granted
    update-Granted (created b p) grant s k = grant_app-Granted grant s b p k
    update-Granted (deleted (some _)) grant s k = delete-Granted
    update-Granted (deleted none) grant s k = tt
    update-Granted (unchanged b p) grant s k = grant_app-Granted grant s b p k

    set_sign_out-IsSigned :
        (must : Bool) (s : NodeSession) → IsSigned (set_sign_out ctx.args ctx.now must s).0
    unfolding set_sign_out unbind_metadata
    set_sign_out-IsSigned true s = inr (refl, refl, refl)
    set_sign_out-IsSigned false s = inl refl

    settled-Granted :
        (deleting must : Bool) (s : NodeSession)
        → Granted (
            patched_node
              (settled ctx deleting
                (load ctx.texts ctx.args node)
                (set_sign_out ctx.args ctx.now must s)).0)
    unfolding settled
    settled-Granted true must s = inl refl
    settled-Granted false must s = inr (set_sign_out-IsSigned must s)

    store-Granted :
        (deleting must : Bool) (current next : NodeSession)
        → Granted (patched_node next)
        → All Granted (store ctx deleting must current next).1
    unfolding store
    store-Granted deleting must current next h =
        All-if Granted (same_session current next) _ _ (λ _. tt)
          λ _.
            All-bind Granted _ _ (call-Granted (patched_node next) ctx.patch_result h)
              λ _ _. call-Granted _ ctx.report_result tt

    sign_in-MayCreate :
        (state : ProfileState) (must ready : Bool) (s : NodeSession)
        → Backed ctx node state s
        → (not must && ready) ≡ true
        → MayCreate state (set_sign_out ctx.args ctx.now must s).0
    unfolding set_sign_out
    sign_in-MayCreate state true ready s h e = absurd (clash {A = ⊥} e refl)
    sign_in-MayCreate (created b p) false ready s h e = record {
      chosen = h.0;
      bound = h.1;
      profiled = h.2;
      signed_in = refl;
      idle = idle;
      synced = synced;
    }
    sign_in-MayCreate (unchanged b p) false ready s h e = record {
      chosen = h.0;
      bound = h.1;
      profiled = h.2;
      signed_in = refl;
      idle = idle;
      synced = synced;
    }
    sign_in-MayCreate (changed _) false ready s h e = tt
    sign_in-MayCreate (deleted _) false ready s h e = tt

    finish-Granted :
        (next : NodeSession) (state : ProfileState) (unreachable : Bool)
        → Backed ctx node state next
        → All Granted (finish ctx (load ctx.texts ctx.args node) next state unreachable).1
    unfolding finish
    finish-Granted next state unreachable h =
        let must = has_changed state || unreachable in
        let signed = (set_sign_out ctx.args ctx.now must next).0 in
        All-bind Granted (update_app ctx state (not must && not (not_ready signed)) signed) _
          (update-Granted state _ signed (sign_in-MayCreate state must _ next h))
          λ app _.
            All-bind Granted _ _
              (store-Granted (is_app_deleting ctx app) must (load ctx.texts ctx.args node) _
                (settled-Granted (is_app_deleting ctx app) must next))
              λ _ _. tt

  drain-Granted : (unreachable : Bool) → All Granted (drain ctx unreachable).1
  drain-Granted false = tt
  drain-Granted true = All-if Granted ctx.drain_unreachable_nodes _ _ (λ _. tt) λ _. tt

  wait-Granted : (o : Option ℕ) → All Granted (wait ctx o).1
  wait-Granted none = tt
  wait-Granted (some n) = tt

  waited : (o : Option ℕ) (a : Unit {0}) → (wait ctx o).0 ≡ ok a → o ≡ none
  waited none a h = refl
  waited (some n) a h = cc

  waited_synced :
      (b : Bool) (n : ℕ) (a : Unit {0})
      → (sync_app ctx).0 ≡ ok b
      → (wait ctx (if b then none else some n)).0 ≡ ok a
      → (sync_app ctx).0 ≡ ok true
  waited_synced true n a h k = h
  waited_synced false n a h k = cc

  sync_app-Granted : All Granted (sync_app ctx).1
  unfolding sync_app
  sync_app-Granted = All-bind Granted (attempt ctx.app) _ (attempt-Granted ctx.app) λ _ _. tt

  find_profile-Granted : (o : Option SessionBinding) → All Granted (find_profile ctx o).1
  find_profile-Granted none = tt
  find_profile-Granted (some b) =
      All-bind Granted (attempt (ctx.profile_of b.profile)) _
        (attempt-Granted (ctx.profile_of b.profile)) λ _ _. tt

  choose-Granted : All Granted (choose ctx node).1
  unfolding choose
  choose-Granted =
      All-bind Granted (attempt ctx.bindings) _ (attempt-Granted ctx.bindings)
        λ bs _. find_profile-Granted (least (filter (is_candidate node.labels) bs))

-- Whatever the cluster answers, an application is created only for a binding that is enabled, is not
-- being deleted and selects the node, with its profile, where the session is bound to that profile
-- and signed in, the node has its resources, was not signing out, and waits for no application.
-- A session that is written to the node is signed in, or signed out with neither a profile nor a user,
-- or is the session read, but for its revision.
pub reconcile-Granted :
    (ctx : Context) (node : Node) → All (Granted ctx node) (reconcile ctx node).1
unfolding reconcile
reconcile-Granted ctx node =
    let G = Granted ctx node in
    All-bind G _ _
      (wait-Granted ctx node (signing_out ctx.args ctx.now (load ctx.texts ctx.args node)))
      λ a idle. All-bind G (sync_app ctx) _ (sync_app-Granted ctx node) λ synced s.
        All-bind G _ _ (wait-Granted ctx node _) λ b k.
          All-bind G (attempt ctx.pods) _ (attempt-Granted ctx node ctx.pods) λ pods _.
            All-bind G (choose ctx node) _ (choose-Granted ctx node) λ chosen c.
              let current = load ctx.texts ctx.args node in
              let next = apply_node ctx.args ctx.quantities pods current in
              let bound = apply_profile ctx.args chosen ctx.now next in
              let u = bound.0.unreachable in
              All-bind G (drain ctx u) _ (drain-Granted ctx node u) λ unreachable _.
                finish-Granted ctx node (waited ctx node _ a idle)
                  (waited_synced ctx node synced ctx.args.duration_sign_out b s k) bound.0 bound.1
                  unreachable
                  (apply_profile-Backed ctx node chosen next (choose-Chosen ctx node chosen c))
