-- ===== src/Vine/Operator/Deferred.antt =====
-- `reconcile` waits for the application of a session to be deleted before it changes the session.
use eecs_k8s.Prelude.{◌≡◌, ◌⊎◌, List, [], ◌∷◌, All}
use eecs_k8s.Prelude.Panic as Panic
use eecs_k8s.Prelude.Flow.{ok}
use eecs_k8s.Vine.Session.Changes.{NodeSession, remove_session_revision}
use eecs_k8s.Vine.Operator.{
  Event, created_app, deleted_app, patched_node, reported, AppState, is_deleting, Step,
}

-- The node is written as it was read, but for its revision, and there is no application.
abbrev pub IsWaiting : NodeSession → Event → Type 0
IsWaiting c (created_app _ _ _) = ⊥
IsWaiting c deleted_app = ⊥
IsWaiting c (patched_node s) = s ≡ remove_session_revision c
IsWaiting c (reported m) = m ≡ "Signing out"

-- From the deletion of the application on, the session waits.
abbrev pub Deferred : NodeSession → List Event → Type 0
Deferred c [] = Unit
Deferred c (deleted_app ∷ t) = All (IsWaiting c) t
Deferred c (created_app _ _ _ ∷ t) = Deferred c t
Deferred c (patched_node _ ∷ t) = Deferred c t
Deferred c (reported _ ∷ t) = Deferred c t

abbrev Keeps : Event → Type 0
Keeps deleted_app = ⊥
Keeps (created_app _ _ _) = Unit
Keeps (patched_node _) = Unit
Keeps (reported _) = Unit

-- A step on the application deletes nothing, or says that it deletes.
abbrev Says : Step AppState → Type 0
Says m = All Keeps m.1 ⊎ (m ≡ (ok is_deleting, deleted_app ∷ []))
