-- ===== src/Kiss/Backend/Renewal.antt =====
-- A box that is commissioned again, and then reconciled by the operator.
use eecs_k8s.Prelude.{◌≡◌, refl, false, none, some, [], ◌∷◌, arith}
use eecs_k8s.Prelude.Flow.{Outcome, ok}
use eecs_k8s.Kiss.Box.{
  BoxStatus, BoxCrd, BoxAccessSpec, BoxGroupSpec, BoxState, ready, joining, running, generic_worker,
  external_worker, role_eq, group_eq, is_default, state_eq,
}
use eecs_k8s.Kiss.Box.Equality.{group_eq_refl}
use eecs_k8s.Kiss.Operator.{
  Context, requeue, patched_status, reported, skipped_joined, old_state, access, bind_group,
  is_bind_group_updated, apply_default_role, wait_access, capture, is_timed_out, bind_new_group,
}
use eecs_k8s.Kiss.Operator.Reconcile.{reconcile}
use eecs_k8s.Kiss.Operator.Reconcile.Moves.{IsWilling}
use eecs_k8s.Kiss.Backend.{
  Server, BoxCommissionQuery, present, access_of, commission, commission_spec, commission_status,
  apply_events,
}

-- The box after a commission that went through.
abbrev pub commissioned : Server → BoxCommissionQuery → BoxCrd → BoxAccessSpec → BoxCrd
commissioned sv q b a = record b {
  spec = commission_spec q b;
  status = some (commission_status sv q b a);
}

commission_ok :
    (sv : Server) (q : BoxCommissionQuery) (b : BoxCrd) (a : BoxAccessSpec)
    → access_of sv q.access ≡ (ok a, [])
    → sv.patch (commission_spec q b) ≡ none
    → sv.patch_status (commission_status sv q b a) ≡ none
    → apply_events (commission sv q (present b)).1 b ≡ commissioned sv q b a
unfolding commission apply_events
commission_ok sv q b a e p s = rw e (rw p (rw s refl))

-- The status that the operator then writes.
abbrev pub rejoined : Context → BoxCrd → BoxAccessSpec → BoxStatus
rejoined ctx b a = record {
  state = running;
  access = a;
  bind_group = some b.spec.group;
  last_updated = ctx.later;
}

module _ (ctx : Context) (sv : Server) (q : BoxCommissionQuery) (b : BoxCrd)
    (a : BoxAccessSpec) where
  renewed_role :
      role_eq b.spec.group.role generic_worker ≡ false
      → apply_default_role ctx (commissioned sv q b a) ≡ (ok tt, [])
  unfolding apply_default_role
  renewed_role h = rw h refl

  renewed_access : wait_access ctx (commissioned sv q b a) ≡ (ok joining, [])
  unfolding wait_access old_state state_eq eecs_k8s.Kiss.Box.next
  renewed_access = refl

  renewed_state : capture ctx (commissioned sv q b a) joining ≡ joining
  unfolding capture old_state state_eq is_timed_out eecs_k8s.Kiss.Box.timeout
  renewed_state = refl

  renewed_group :
      q.reset ≡ false
      → bind_group b ≡ some b.spec.group
      → is_bind_group_updated (commissioned sv q b a) ≡ false
  unfolding is_bind_group_updated
  renewed_group r g = unfold bind_group in rw r (rw g (rw (group_eq_refl b.spec.group) refl))

  renewed_bind :
      q.reset ≡ false
      → bind_group b ≡ some b.spec.group
      → role_eq b.spec.group.role external_worker ≡ false
      → role_eq b.spec.group.role generic_worker ≡ false
      → IsWilling ctx
      → bind_new_group ctx (commissioned sv q b a) joining ≡ (
        Outcome.returned (requeue ctx.interval),
        patched_status (rejoined ctx b a) ∷ reported skipped_joined ∷ [],
      )
  unfolding bind_new_group state_eq access
  renewed_bind r g internal special willing =
      unfold bind_group in
      rw (r, g)
        (ground (
          arith,
          renewed_group r g,
          willing.patches (rejoined ctx b a),
          willing.publishes skipped_joined,
        ))

  -- A box that is bound to its own group and is commissioned again, without a reset, comes back
  -- as running at the next reconciliation: its state and access are written, the group stays bound, and
  -- no job is spawned. The role is neither external nor the generic one, and the services answer.
  pub reconcile-commission :
      q.reset ≡ false
      → bind_group b ≡ some b.spec.group
      → role_eq b.spec.group.role external_worker ≡ false
      → role_eq b.spec.group.role generic_worker ≡ false
      → IsWilling ctx
      → access_of sv q.access ≡ (ok a, [])
      → sv.patch (commission_spec q b) ≡ none
      → sv.patch_status (commission_status sv q b a) ≡ none
      → reconcile ctx (apply_events (commission sv q (present b)).1 b) ≡ (
        Outcome.returned (requeue ctx.interval),
        patched_status (rejoined ctx b a) ∷ reported skipped_joined ∷ [],
      )
  unfolding reconcile
  reconcile-commission r g internal special willing e p s = rw (commission_ok sv q b a e p s) (
      rw
        (
          renewed_role special,
          renewed_access,
          renewed_state,
          renewed_bind r g internal special willing,
        )
        refl)
