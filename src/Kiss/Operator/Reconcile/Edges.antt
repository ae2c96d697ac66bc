-- ===== src/Kiss/Operator/Reconcile/Edges.antt =====
-- The state changes that `reconcile` of the box operator can write.
use eecs_k8s.Prelude.{◌≡◌, ◌⊎◌, Bool, true, false, Option, arith, All, All-map}
use eecs_k8s.Prelude.Flow.{ok, All-bind}
use eecs_k8s.Kiss.Box.{
  BoxState, BoxGroupSpec, BoxStatus, BoxCrd, new, commissioning, ready, joining, running,
  disconnected, next, timeout, state_eq,
}
use eecs_k8s.Kiss.Box
use eecs_k8s.Kiss.Operator.{
  Context, Event, patched_spec, patched_status, spawned, refused, reported, old_state,
  apply_default_role, wait_access, is_timed_out, capture, bind_new_group,
}
use eecs_k8s.Kiss.Operator.Reconcile.{spawned_or_wait, spawn_task, advance, reconcile}

-- The arrows of the box's life cycle that the operator draws.
pub data Edge : BoxState → BoxState → Type 0 where
  register : Edge new commissioning
  lost : Edge new disconnected
  join : Edge ready joining
  rejoin : Edge ready running
  commission_timeout : Edge commissioning Box.failed
  join_timeout : Edge joining Box.failed
  regroup : Edge running disconnected

abbrev is_edge : BoxState → BoxState → Bool
is_edge new commissioning = true
is_edge new disconnected = true
is_edge ready joining = true
is_edge ready running = true
is_edge commissioning Box.failed = true
is_edge joining Box.failed = true
is_edge running disconnected = true
is_edge _ _ = false

is_edge-Edge : (a c : BoxState) → is_edge a c ≡ true → Edge a c
is_edge-Edge new commissioning h = register
is_edge-Edge new disconnected h = lost
is_edge-Edge ready joining h = join
is_edge-Edge ready running h = rejoin
is_edge-Edge commissioning Box.failed h = commission_timeout
is_edge-Edge joining Box.failed h = join_timeout
is_edge-Edge running disconnected h = regroup
is_edge-Edge _ _ h = cc

-- A status that is written lies at the end of an arrow from the box's state.
abbrev pub Follows : BoxCrd → Event → Type 0
Follows b (patched_status s) = Edge (old_state b) s.state
Follows b _ = Unit

abbrev Drawn : BoxCrd → Event → Type 0
Drawn b (patched_status s) = is_edge (old_state b) s.state ≡ true
Drawn b _ = Unit

Drawn-Follows : (b : BoxCrd) (e : Event) → Drawn b e → Follows b e
Drawn-Follows b (patched_status s) h = is_edge-Edge (old_state b) s.state h
Drawn-Follows b (patched_spec s) h = tt
Drawn-Follows b (spawned j) h = tt
Drawn-Follows b (refused j) h = tt
Drawn-Follows b (reported n) h = tt

-- The state that `reconcile` goes on with: the old one, or one at the end of an arrow.
abbrev IsTarget : BoxCrd → BoxState → Type 0
IsTarget b st = (old_state b ≡ st) ⊎ (is_edge (old_state b) st ≡ true)

module _ (ctx : Context) (b : BoxCrd) where
  apply_default_role-Drawn : All (Drawn b) (apply_default_role ctx b).1
  unfolding apply_default_role
  apply_default_role-Drawn = ground arith

  wait_access-Drawn : All (Drawn b) (wait_access ctx b).1
  unfolding wait_access
  wait_access-Drawn = ground arith

  capture-IsTarget : (st : BoxState) → (wait_access ctx b).0 ≡ ok st → IsTarget b (capture ctx b st)
  unfolding wait_access capture is_timed_out next state_eq timeout
  capture-IsTarget st h = ground arith

  bind_new_group-Drawn : (st : BoxState) → IsTarget b st → All (Drawn b) (bind_new_group ctx b st).1
  unfolding bind_new_group state_eq
  bind_new_group-Drawn st h = ground arith

  advance-Drawn :
      (st : BoxState) (g : Option BoxGroupSpec)
      → IsTarget b st
      → All (Drawn b) (advance ctx b st g).1
  unfolding advance spawn_task spawned_or_wait state_eq
  advance-Drawn st g h = ground arith

-- Every state that a reconciliation writes lies at the end of an arrow from the state that the box
-- was read in, whatever the configuration, the clock and the answers of the services.
pub reconcile-Follows : (ctx : Context) (b : BoxCrd) → All (Follows b) (reconcile ctx b).1
unfolding reconcile
reconcile-Follows ctx b = All-map (Drawn b) (Follows b) (reconcile ctx b).1 (Drawn-Follows b) drawn
  where
    drawn : All (Drawn b) (reconcile ctx b).1
    drawn = All-bind (Drawn b) (apply_default_role ctx b) _ (apply_default_role-Drawn ctx b) λ u _.
        All-bind (Drawn b) (wait_access ctx b) _ (wait_access-Drawn ctx b) λ w e.
          let t = capture-IsTarget ctx b w e in
          All-bind (Drawn b) (bind_new_group ctx b (capture ctx b w)) _
            (bind_new_group-Drawn ctx b (capture ctx b w) t)
            λ g _. advance-Drawn ctx b (capture ctx b w) g t
