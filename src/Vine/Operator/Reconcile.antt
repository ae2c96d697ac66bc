-- ===== src/Vine/Operator/Reconcile.antt =====
-- crates/openark-vine-session-operator/src/main.rs, `reconcile` and the application of a session.
use Prim.Native.String.{◌++◌ as append}
use eecs_k8s.Prelude.{
  ℕ, String, str_eq, Bool, true, false, not, ◌&&◌, ◌||◌, Option, none, some, is_some, unwrap_or,
  if◌then◌else◌,
}
use eecs_k8s.Prelude.Flow.{◌>>=◌, ◌>>◌, pure, return, fail, call}
use eecs_k8s.Prelude.Select.{filter}
use eecs_k8s.Vine.Session.{SessionBinding, SessionProfile, Node}
use eecs_k8s.Vine.Session.Limits.{to_resources_compute, to_resources_local_storage}
use eecs_k8s.Vine.Session.Equality.{same_session}
use eecs_k8s.Vine.Session.Changes.{
  NodeSession, ProfileState, changed, created, deleted, unchanged, has_changed, not_ready,
  remove_session_revision, load, signing_out, apply_node, apply_profile, set_sign_out,
}
use eecs_k8s.Vine.Operator.{
  created_app, deleted_app, patched_node, reported, Action, requeue, await_change, AppState,
  is_created, is_deleted, is_deleting, node_not_ready, App, Context, Step, attempt, has_value,
  is_candidate, least, zip_profile, is_ok,
}

module _ (ctx : Context) where
  -- `true` if there is nothing to wait for.
  abbrev pub is_synced : Option App → Bool
  is_synced none = true
  is_synced (some app) =
      is_some app.creation_timestamp
      && not (is_some app.deletion_timestamp)
      && has_value app.sync_status "Synced"

  unfoldable pub sync_app : Step Bool
  sync_app = do app ← attempt ctx.app; pure (is_synced app)

  abbrev pub find_profile : Option SessionBinding → Step (Option (SessionBinding × SessionProfile))
  find_profile none = pure none
  find_profile (some b) = do
    profile ← attempt (ctx.profile_of b.profile)
    pure (zip_profile b profile)

  unfoldable pub choose : Node → Step (Option (SessionBinding × SessionProfile))
  unfolding filter is_candidate least
  choose node = do
    bindings ← attempt ctx.bindings
    find_profile (least (filter (is_candidate node.labels) bindings))

  -- The tests of `build_owned_session_profile`: the resources, the devices of the host, the storage.
  unfoldable pub is_node_ready : NodeSession → SessionProfile → Bool
  unfolding to_resources_compute to_resources_local_storage
  is_node_ready s p =
      is_ok (to_resources_compute ctx.is_device ctx.args s)
      && (not (unwrap_or p.host_display false && unwrap_or p.vm_enabled false)
          || ctx.has_usb_controller)
      && is_ok (to_resources_local_storage s)

  abbrev pub exported_app : Option String → Step (Unit {0})
  exported_app none = pure tt
  exported_app (some e) = fail e

  unfoldable pub create_app : NodeSession → SessionBinding → SessionProfile → Step AppState
  unfolding is_node_ready
  create_app s b p =
      if is_node_ready s p
      then (do
        exported_app ctx.exported
        exists ← attempt ctx.app_metadata
        if exists then pure tt else call (created_app s b p) ctx.create_result
        pure is_created)
      else pure node_not_ready

  unfoldable pub delete_app : Step AppState
  delete_app = do
    exists ← attempt ctx.app_metadata
    if exists then (do call deleted_app ctx.delete_result; pure is_deleting) else pure is_deleted

  unfoldable pub grant_app :
      (grant : Bool) → NodeSession → SessionBinding → SessionProfile → Step AppState
  unfolding create_app delete_app
  grant_app true s b p = create_app s b p
  grant_app false s b p = delete_app

  unfoldable pub update_app : ProfileState → (grant : Bool) → NodeSession → Step AppState
  unfolding delete_app
  update_app (changed _) grant s = delete_app
  update_app (created b p) grant s = grant_app grant s b p
  update_app (deleted (some _)) grant s = delete_app
  update_app (deleted none) grant s = pure is_deleted
  update_app (unchanged b p) grant s = grant_app grant s b p

  abbrev pub is_app_deleting : AppState → Bool
  is_app_deleting is_deleting = true
  is_app_deleting is_created = false
  is_app_deleting is_deleted = false
  is_app_deleting node_not_ready = false

  abbrev pub signed_in_message : Option String → String
  signed_in_message none = "Signed in"
  signed_in_message (some user) =
      if str_eq user "" then "Signed in" else append "Signed in with " user

  unfoldable pub message : (deleting sign_out : Bool) → NodeSession → String
  message true sign_out s = "Signing out"
  message false true s = "Signed out"
  message false false s = signed_in_message s.metadata.bind_user

  -- The node is patched if its session has changed.
  unfoldable pub store : (deleting sign_out : Bool) (current next : NodeSession) → Step (Unit {0})
  unfolding message same_session
  store deleting sign_out current next = if same_session current next then pure tt else (do
    call (patched_node next) ctx.patch_result
    call (reported (message deleting sign_out next)) ctx.report_result)

  -- While the application is deleted, only the revision is changed.
  unfoldable pub settled :
      (deleting : Bool) → NodeSession → NodeSession × Option ℕ → NodeSession × Option ℕ
  unfolding remove_session_revision
  settled true current next = (remove_session_revision current, none)
  settled false current next = next

  unfoldable pub finish :
      (current next : NodeSession) → ProfileState → (unreachable : Bool) → Step Action
  unfolding has_changed set_sign_out not_ready update_app settled store
  finish current next state unreachable = do
    let must_sign_out = has_changed state || unreachable
    let signed = set_sign_out ctx.args ctx.now must_sign_out next
    let grant_create_app = not must_sign_out && not (not_ready signed.0)
    app_state ← update_app state grant_create_app signed.0
    let deleting = is_app_deleting app_state
    let last = settled deleting current signed
    store deleting must_sign_out current last.0
    pure (requeue (unwrap_or last.1 ctx.args.duration_sign_out))

  -- Whether the node is drained.
  abbrev pub drain : (unreachable : Bool) → Step Bool
  drain false = pure false
  drain true = if ctx.drain_unreachable_nodes then pure true else return await_change

  abbrev pub wait : Option ℕ → Step (Unit {0})
  wait none = pure tt
  wait (some remaining) = return (requeue remaining)

  unfoldable pub reconcile : Node → Step Action
  unfolding load signing_out sync_app apply_node choose apply_profile finish
  reconcile node = do
    let current = load ctx.texts ctx.args node
    wait (signing_out ctx.args ctx.now current)
    synced ← sync_app
    wait (if synced then none else some ctx.args.duration_sign_out)
    pods ← attempt ctx.pods
    chosen ← choose node
    let next = apply_node ctx.args ctx.quantities pods current
    let bound = apply_profile ctx.args chosen ctx.now next
    unreachable ← drain bound.0.unreachable
    finish current bound.0 bound.1 unreachable
