-- ===== src/Vine/Session/Metadata.antt =====
-- crates/openark-vine-session-api/src/lib.rs, `Metadata`: the labels of a node that hold its session.
use eecs_k8s.Prelude.{
  ℕ, String, str_eq, Bool, true, false, Option, none, some, List, [], ◌∷◌, unwrap_or, if◌then◌else◌,
}
use eecs_k8s.Prelude.Dict.{string_eq, Dict, get, insert}
use eecs_k8s.Vine.Session.{
  SessionArgs, SessionGpu, intel, nvidia, ComputeMode, container, kueue, vm, default_mode,
  as_nvidia_gpu_replicas, as_nvidia_gpu_workload_config,
}

-- How numbers are written as texts and read: of times, that are in milliseconds, and of naturals.
pub record Texts : Type 0 where
  pub parse_time : String → Option ℕ
  pub show_time : ℕ → String
  pub show_nat : ℕ → String

pub record Metadata : Type 0 where
  pub alias : Option String
  pub bind : Option Bool
  pub bind_cpu : Option String
  pub bind_memory : Option String
  pub bind_namespace : Option String
  pub bind_node : Option String
  pub bind_persistent : Option Bool
  pub bind_privileged : Option Bool
  pub bind_profile : Option String
  pub bind_revision : Option String
  pub bind_storage : Option String
  pub bind_timestamp : Option ℕ
  pub bind_user : Option String
  pub compute_mode : Option ComputeMode
  pub gpu : Option SessionGpu
  pub name : Option String
  pub signed_out : Option Bool

unfoldable pub parse_bool : String → Option Bool
parse_bool text =
    if str_eq text "true" then some true else if str_eq text "false" then some false else none

unfoldable pub show_bool : Bool → String
show_bool true = "true"
show_bool false = "false"

unfoldable pub parse_mode : String → Option ComputeMode
parse_mode text =
    if str_eq text "container"
    then some container
    else if str_eq text "kueue"
    then some kueue
    else if str_eq text "vm"
    then some vm
    else none

unfoldable pub show_mode : ComputeMode → String
show_mode container = "container"
show_mode kueue = "kueue"
show_mode vm = "vm"

unfoldable pub parse_gpu : String → Option SessionGpu
parse_gpu text =
    if str_eq text "intel" then some intel else if str_eq text "nvidia" then some nvidia else none

-- `.filter(|&value| !value.is_empty())`
unfoldable pub non_empty : Option String → Option String
non_empty none = none
non_empty (some text) = if str_eq text "" then none else some text

-- `.and_then(|value| value.parse().ok())`
abbrev pub parsed : {A : Type 0} → (String → Option A) → Option String → Option A
parsed parse none = none
parsed parse (some text) = parse text

abbrev pub get_label : Option (Dict String String) → String → Option String
get_label none key = none
get_label (some labels) key = get labels key

module _ (texts : Texts) (args : SessionArgs) where
  unfoldable pub load_metadata :
      (name : Option String) (labels : Option (Dict String String)) → Metadata
  unfolding non_empty parse_bool parse_mode parse_gpu
  load_metadata name labels = record {
    alias = non_empty (get_label labels args.label_alias);
    bind = parsed parse_bool (get_label labels args.label_bind);
    bind_cpu = non_empty (get_label labels args.label_bind_cpu);
    bind_memory = non_empty (get_label labels args.label_bind_memory);
    bind_namespace = non_empty (get_label labels args.label_bind_namespace);
    bind_node = non_empty (get_label labels args.label_bind_node);
    bind_persistent = parsed parse_bool (get_label labels args.label_bind_persistent);
    bind_privileged = parsed parse_bool (get_label labels args.label_bind_privileged);
    bind_profile = non_empty (get_label labels args.label_bind_profile);
    bind_revision = non_empty (get_label labels args.label_bind_revision);
    bind_storage = non_empty (get_label labels args.label_bind_storage);
    bind_timestamp = parsed texts.parse_time (get_label labels args.label_bind_timestamp);
    bind_user = non_empty (get_label labels args.label_bind_user);
    compute_mode = parsed parse_mode (get_label labels args.label_compute_mode);
    gpu = parsed parse_gpu (get_label labels args.label_gpu);
    name = name;
    signed_out = parsed parse_bool (get_label labels args.label_signed_out);
  }

  abbrev pub show_timestamp : Option ℕ → String
  show_timestamp none = ""
  show_timestamp (some time) = texts.show_time time

  -- The labels in the order in which they are inserted.
  unfoldable pub written_labels : Metadata → List (String × String)
  unfolding show_bool show_mode as_nvidia_gpu_replicas as_nvidia_gpu_workload_config
  written_labels m =
      let mode = unwrap_or m.compute_mode default_mode in
      (args.label_alias, unwrap_or m.alias "")
      ∷ (args.label_bind, show_bool (unwrap_or m.bind false))
      ∷ (args.label_bind_cpu, unwrap_or m.bind_cpu "")
      ∷ (args.label_bind_memory, unwrap_or m.bind_memory "")
      ∷ (args.label_bind_namespace, unwrap_or m.bind_namespace "")
      ∷ (args.label_bind_node, unwrap_or m.bind_node "")
      ∷ (args.label_bind_persistent, show_bool (unwrap_or m.bind_persistent false))
      ∷ (args.label_bind_profile, unwrap_or m.bind_profile "")
      ∷ (args.label_bind_revision, unwrap_or m.bind_revision "")
      ∷ (args.label_bind_storage, unwrap_or m.bind_storage "")
      ∷ (args.label_bind_timestamp, show_timestamp m.bind_timestamp)
      ∷ (args.label_bind_user, unwrap_or m.bind_user "")
      ∷ (args.label_compute_mode, show_mode mode)
      ∷ (args.label_signed_out, show_bool (unwrap_or m.signed_out true))
      ∷ ("nvidia.com/device-plugin.config", "kiss-Desktop")
      ∷ ("nvidia.com/gpu.replicas", texts.show_nat (as_nvidia_gpu_replicas mode))
      ∷ ("nvidia.com/gpu.sharing-strategy", "time-slicing")
      ∷ ("nvidia.com/gpu.workload.config", as_nvidia_gpu_workload_config mode)
      ∷ []

  unfoldable pub insert_all : List (String × String) → Dict String String → Dict String String
  unfolding insert
  insert_all [] d = d
  insert_all ((key, value) ∷ more) d = insert_all more (insert key value d)

  unfoldable pub build_labels : Metadata → Dict String String
  unfolding written_labels insert_all
  build_labels m = insert_all (written_labels m) []
