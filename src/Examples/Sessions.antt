-- ===== src/Examples/Sessions.antt =====
-- A node with a binding, whose session is signed in and whose application is created.
use eecs_k8s.Prelude.{
  ℕ, ◌+◌, ◌-◌, String, Bool, true, false, ◌≡◌, refl, none, some, List, [], ◌∷◌, All,
}
use eecs_k8s.Prelude.Panic as Panic
use eecs_k8s.Prelude.Dict.{string_eq, get}
use eecs_k8s.Vine.Session.{
  SessionArgs, intel, vm, desktop, SessionProfile, SessionBinding, user, Node,
}
use eecs_k8s.Vine.Session.Metadata.{Metadata, Texts, load_metadata, build_labels}
use eecs_k8s.Prelude.{str_eq, if◌then◌else◌}
use eecs_k8s.Prelude.Dict.Unique.{IsUnique}
use eecs_k8s.Vine.Session.{container}
use eecs_k8s.Vine.Session.Metadata.{written_labels}
use eecs_k8s.Vine.Session.Labels.{read_again, load_metadata-build_labels}
use eecs_k8s.Vine.Session.Resources.{Quantities}
use eecs_k8s.Vine.Operator.{Context, Event, created_app, patched_node, reported, deleted_app}
use eecs_k8s.Vine.Operator.Reconcile.{reconcile}
use eecs_k8s.Vine.Operator.Granted.{Granted, reconcile-Granted}
use eecs_k8s.Vine.Operator.Deferred.{Deferred}

abbrev texts : Texts
texts = record {
  parse_time = λ t. if str_eq t "0" then some 0 else none;
  show_time = λ _. "0";
  show_nat = λ _. "1";
}

abbrev args : SessionArgs
args = record {
  duration_sign_out = 30_000;
  force_gpu = none;
  label_alias = "alias";
  label_bind = "bind";
  label_bind_cpu = "bind.cpu";
  label_bind_memory = "bind.memory";
  label_bind_namespace = "bind.namespace";
  label_bind_node = "bind.node";
  label_bind_persistent = "bind.persistent";
  label_bind_privileged = "bind.privileged";
  label_bind_profile = "bind.profile";
  label_bind_revision = "bind.revision";
  label_bind_storage = "bind.storage";
  label_bind_timestamp = "bind.timestamp";
  label_bind_user = "bind.user";
  label_compute_mode = "compute-mode";
  label_gpu = "gpu";
  label_signed_out = "signed-out";
}

abbrev quantities : Quantities
quantities = record {
  Q = ℕ;
  F = ℕ;
  parse = λ _. some 8;
  zero = 0;
  add = λ a b. a + b;
  sub = λ a b. a - b;
  to_bytes_f64 = λ a. some a;
  to_bytes_i128 = λ a. some a;
  float_zero = 0;
  minus_one = λ a. a - 1;
  floor = λ a. a;
  is_finite = λ _. true;
  is_sign_positive = λ _. true;
  as_u32 = λ a. a;
  show = λ _. "7";
}

abbrev profile : SessionProfile
profile = record {
  labels = [];
  resource_version = some "12";
  persistence_enabled = none;
  vm_enabled = none;
  host_display = none;
  mode = some desktop;
}

abbrev binding : SessionBinding
binding = record {
  deletion_timestamp = none;
  creation_timestamp = some 1;
  uid = some "u";
  enabled = none;
  node_selector = none;
  priority = 0;
  profile = "desktop";
  user_kind = user;
  user_name = some "alice";
  user_privileged = some true;
}

abbrev node : Node
node = record {
  name = some "node";
  labels = some (("gpu", "intel") ∷ ("bind.storage", "100") ∷ []);
  taints = none;
  allocatable = some (("cpu", "8") ∷ ("memory", "8") ∷ []);
}

-- The node, bound to a profile that it has no longer.
abbrev old_node : Node
old_node = record node {
  labels = some (
      ("gpu", "intel")
      ∷ ("bind.storage", "100")
      ∷ ("bind.profile", "old")
      ∷ ("bind.revision", "11")
      ∷ []);
}

abbrev ctx : (exists : Bool) → Context
ctx exists = record {
  texts = texts;
  args = args;
  quantities = quantities;
  drain_unreachable_nodes = true;
  now = 100_000;
  app = Panic.ok none;
  pods = Panic.ok [];
  bindings = Panic.ok (binding ∷ []);
  profile_of = λ _. Panic.ok (some profile);
  app_metadata = Panic.ok exists;
  is_device = λ _. false;
  has_usb_controller = false;
  exported = none;
  create_result = none;
  delete_result = none;
  patch_result = none;
  report_result = none;
}

-- What was called, by its kind.
abbrev kinds : List Event → List String
kinds [] = []
kinds (created_app _ _ _ ∷ t) = "create" ∷ kinds t
kinds (deleted_app ∷ t) = "delete" ∷ kinds t
kinds (patched_node _ ∷ t) = "patch" ∷ kinds t
kinds (reported m ∷ t) = m ∷ kinds t

signs_in : kinds (reconcile (ctx false) node).1 ≡ "create" ∷ "patch" ∷ "Signed in with alice" ∷ []
unfolding reconcile eecs_k8s.Vine.Session.Changes.apply_allocatable
    eecs_k8s.Vine.Operator.Reconcile.grant_app
signs_in = refl

signs_out : kinds (reconcile (ctx true) old_node).1 ≡ "delete" ∷ "patch" ∷ "Signing out" ∷ []
unfolding reconcile eecs_k8s.Vine.Session.Changes.apply_allocatable
signs_out = refl

-- That the user is privileged is not among the labels that are written.
privileged_lost :
    (load_metadata texts args (some "node") (
      some (
        build_labels texts args (record (load_metadata texts args (some "node") none) {
          bind_privileged = some true;
        })))).bind_privileged
    ≡ none
unfolding load_metadata build_labels get
privileged_lost = refl

reconcile-Granted_example : All (Granted (ctx false) node) (reconcile (ctx false) node).1
reconcile-Granted_example = reconcile-Granted (ctx false) node

abbrev bound : Metadata
bound = record {
  alias = some "desk";
  bind = some true;
  bind_cpu = some "7";
  bind_memory = some "7";
  bind_namespace = none;
  bind_node = some "node";
  bind_persistent = some false;
  bind_privileged = some true;
  bind_profile = some "desktop";
  bind_revision = some "12";
  bind_storage = some "100";
  bind_timestamp = some 0;
  bind_user = some "alice";
  compute_mode = some container;
  gpu = some intel;
  name = some "node";
  signed_out = some false;
}

bound-IsUnique : IsUnique (written_labels texts args bound)
unfolding written_labels get
bound-IsUnique = (
  refl,
  (
    refl,
    (
      refl,
      (
        refl,
        (
          refl,
          (
            refl,
            (
              refl,
              (
                refl,
                (refl, (refl, (refl, (refl, (refl, (refl, (refl, (refl, (refl, (refl, tt)))))))))),
              ),
            ),
          ),
        ),
      ),
    ),
  ),
)

not_written :
    (get (written_labels texts args bound) "bind.privileged" ≡ none)
    × (get (written_labels texts args bound) "gpu" ≡ none)
unfolding written_labels get
not_written = (refl, refl)

load_metadata-build_labels_example :
    load_metadata texts args (some "node") (some (build_labels texts args bound)) ≡ read_again bound
load_metadata-build_labels_example =
    load_metadata-build_labels texts args bound bound-IsUnique not_written.0 not_written.1 refl
