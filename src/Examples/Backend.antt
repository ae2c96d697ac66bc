-- ===== src/Examples/Backend.antt =====
-- A running box that is commissioned again (crates/openark-kiss-backend/src/routes/commission.rs).
use eecs_k8s.Prelude.{◌≡◌, refl, true, false, none, some, [], ◌∷◌}
use eecs_k8s.Prelude.Flow.{Outcome, ok}
use eecs_k8s.Kiss.Box.{
  BoxCrd, BoxSpec, BoxAccessSpec, compute, running, generic_worker, external_worker, role_eq,
}
use eecs_k8s.Kiss.Operator.{
  bind_group, Context, accepted, requeue, patched_status, reported, skipped_joined,
}
use eecs_k8s.Kiss.Operator.Reconcile.{reconcile}
use eecs_k8s.Kiss.Operator.Reconcile.Moves.{IsWilling}
use eecs_k8s.Kiss.Backend.{access_of, Server, BoxCommissionQuery, present, commission, apply_events}
use eecs_k8s.Kiss.Backend.Renewal.{reconcile-commission, rejoined}

abbrev reached : BoxAccessSpec
reached = record { primary = some (record { address = 10; speed_mbps = none }) }

abbrev spec : BoxSpec
spec = record {
  group = record { cluster_name = "edge"; role = compute };
  machine = record { uuid = 7 };
  power = none;
}

abbrev bound_box : BoxCrd
bound_box = record {
  creation_timestamp = some 0;
  verify_bind_group_label = none;
  spec = spec;
  status = some (record {
    state = running;
    access = reached;
    bind_group = some (record { cluster_name = "edge"; role = compute });
    last_updated = 5;
  });
}

abbrev query : BoxCommissionQuery
query = record {
  access = some (record { address = 10; speed_mbps = none });
  machine = record { uuid = 7 };
  power = none;
  reset = false;
}

abbrev server : Server
server = record {
  now = 9;
  get_opt = λ machine. present bound_box;
  create = λ _. none;
  patch = λ _. none;
  patch_status = λ _. none;
  parse_speed = λ _. none;
}

abbrev context : Context
context = record {
  group_default_role = generic_worker;
  group_enable_default_cluster = true;
  enable_cronjobs = false;
  interval = 30;
  now = 10;
  later = 11;
  patch = λ _. none;
  patch_status = λ _. none;
  spawn = λ _. accepted;
  publish = λ _. none;
}

context-IsWilling : IsWilling context
context-IsWilling = record { spawns = λ _. refl; patches = λ _. refl; publishes = λ _. refl }

was_bound : bind_group bound_box ≡ some bound_box.spec.group
unfolding bind_group
was_bound = refl

was_internal : role_eq compute external_worker ≡ false
unfolding role_eq
was_internal = refl

was_special : role_eq compute generic_worker ≡ false
unfolding role_eq
was_special = refl

was_reached : access_of server query.access ≡ (ok reached, [])
unfolding access_of
was_reached = refl

reconcile-commission_example :
    reconcile context (apply_events (commission server query (present bound_box)).1 bound_box) ≡ (
      Outcome.returned (requeue 30),
      patched_status (rejoined context bound_box reached) ∷ reported skipped_joined ∷ [],
    )
reconcile-commission_example =
    reconcile-commission context server query bound_box reached refl was_bound was_internal
      was_special context-IsWilling was_reached refl refl
