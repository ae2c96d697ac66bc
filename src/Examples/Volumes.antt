-- ===== src/Examples/Volumes.antt =====
-- The controller of the storage driver with one pond: a volume is created, published and deleted.
use eecs_k8s.Prelude.{
  map, ℕ, String, ◌≡◌, refl, Bool, true, false, Option, none, some, List, [], ◌∷◌,
}
use eecs_k8s.Prelude.Panic.{ok}
use eecs_k8s.Prelude.Dict.{string_eq, get}
use eecs_k8s.DataPond.Server.{Server, Programs}
use eecs_k8s.DataPond.Candidates.{device_key}
use eecs_k8s.DataPond.Controller.{VolumeClaim, Cluster, System, Volume}
use eecs_k8s.DataPond.Controller.Handler.{Driver, PublishRequest}
use eecs_k8s.DataPond.Controller.Create.{CreateRequest}
use eecs_k8s.Prelude.Dict.{insert}
use eecs_k8s.DataPond.Binding.{VolumeBindingClaim}
use eecs_k8s.DataPond.Controller.{VolumeClaim}
use eecs_k8s.DataPond.Controller.Spec.{fresh_volume}
use eecs_k8s.DataPond.Controller.Create.{charge}
use eecs_k8s.Examples.Ponds.{options, two_devices}
use eecs_k8s.DataPond.Controller.Run.{Request, run}
use eecs_k8s.DataPond.Controller.Run
use eecs_k8s.DataPond.Controller.Exclusive.{keys}
use eecs_k8s.DataPond.Controller.Accounts.{used}
use eecs_k8s.Examples.Ponds.{options, two_devices, disk}

-- Every program ends with success.
abbrev pub willing : Programs
willing = record {
  allocate = λ name c. ok true;
  publish = λ name c. ok true;
  unpublish = λ name c. ok true;
}

abbrev pub cluster : Cluster
cluster = record {
  now = 60_000_000_000;
  lookup = ok ("10.0.0.1" ∷ []);
  transport = λ addr. ok tt;
  programs = willing;
}

abbrev pub driver : Driver
driver = record {
  fs_type = "ext4";
  encode_bindings = λ bs. some "[]";
  encode_layer = λ l. some "lvm";
  parse_i64 = λ text. none;
}

abbrev pub node : Server
node = record {
  node_id = "node";
  pod_ip = "10.0.0.1";
  bindings = [];
  devices = ("a", disk "a" 104_857_600) ∷ ("b", disk "b" 67_108_864) ∷ [];
}

abbrev pub start : System
start = record {
  state = record { allocated = []; ponds = record { created_at = 0; data_of = [] }; volumes = [] };
  servers = ("10.0.0.1", node) ∷ [];
}

abbrev pub new_volume : CreateRequest
new_volume = record {
  name = "v";
  required_bytes = some 134_217_728;
  volume_capabilities = [];
  parameters = [];
  has_content_source = false;
  accessibility_requirements = none;
  mutable_parameters = [];
}

abbrev pub to_node : String → Bool → PublishRequest
to_node node_id readonly = record {
  volume_id = "pond_v";
  node_id = node_id;
  volume_capability = none;
  readonly = readonly;
  volume_context = [];
}

-- 128 MiB are created over both devices, read by two nodes, and then a writer is refused.
abbrev pub requests : List (Cluster × Request)
requests =
    (cluster, Run.create new_volume)
    ∷ (cluster, Run.publish (to_node "n1" true))
    ∷ (cluster, Run.publish (to_node "n2" true))
    ∷ (cluster, Run.publish (to_node "n3" false))
    ∷ []

abbrev nodes_of : Option Volume → List String
nodes_of none = []
nodes_of (some v) = keys v.published_node_ids

published_to : nodes_of (get (run driver requests start).state.volumes "pond_v") ≡ "n2" ∷ "n1" ∷ []
unfolding run get
published_to = refl

-- What is allocated: 100 MiB of the one device, the whole of it, and the rest of the other.
allocated_on :
    used (run driver requests start).state.allocated (device_key "node" "a") ≡ 104_857_600
unfolding run get
allocated_on = refl

abbrev small_volume : String → CreateRequest
small_volume name = record new_volume { name = name; required_bytes = some 33_554_432 }

-- A minute later the cache of the ponds has expired.
abbrev later : Cluster
later = record cluster { now = 120_000_000_000 }

-- A volume that was deleted is put together again from the binding that its pond still reports, and is
-- published.
published_again :
    nodes_of (
      get
        (run driver
          ((cluster, Run.create (small_volume "v"))
            ∷ (cluster, Run.delete "pond_v")
            ∷ (later, Run.publish (to_node "n1" false))
            ∷ [])
          start).state.volumes
        "pond_v")
    ≡ "n1" ∷ []
unfolding run get
published_again = refl

-- A volume that is published for writing is created again, and is then given to a reader.
created_again :
    nodes_of (
      get
        (run driver
          ((cluster, Run.create (small_volume "v"))
            ∷ (cluster, Run.publish (to_node "n1" false))
            ∷ (cluster, Run.create (small_volume "v"))
            ∷ (cluster, Run.publish (to_node "n2" true))
            ∷ [])
          start).state.volumes
        "pond_v")
    ≡ "n2" ∷ []
unfolding run get
created_again = refl

abbrev restarted : System → System
restarted s = record s { state = start.state }

-- A volume over two devices of one pond is not put together again after a restart, since the pond
-- keeps one binding for each volume.
not_recovered :
    nodes_of (
      get
        (run driver
          ((later, Run.publish (to_node "n1" false)) ∷ [])
          (restarted (run driver ((cluster, Run.create new_volume) ∷ []) start))).state.volumes
        "pond_v")
    ≡ []
unfolding run get
not_recovered = refl

-- The devices of a volume, and where it begins on each.
abbrev places : Option Volume → List (String × ℕ)
places none = []
places (some v) = map (λ b. (b.device.id, b.metadata.offset)) v.claim.bindings

abbrev after_deletion : System
unfolding run
after_deletion =
    run driver
      ((cluster, Run.create (small_volume "u"))
        ∷ (cluster, Run.create (small_volume "v"))
        ∷ (cluster, Run.delete "pond_u")
        ∷ (cluster, Run.create (small_volume "w"))
        ∷ [])
      start

-- After a deletion a new volume is given the place of one that is still there.
old_place : places (get after_deletion.state.volumes "pond_v") ≡ ("a", 37_748_736) ∷ []
unfolding after_deletion run get
old_place = refl

same_place : places (get after_deletion.state.volumes "pond_w") ≡ ("a", 37_748_736) ∷ []
unfolding after_deletion run get
same_place = refl

abbrev bound : VolumeBindingClaim → VolumeBindingClaim
bound b = record b { metadata = record b.metadata { reserved = 37_748_736 } }

-- A volume of two bindings, and a system that holds it.
abbrev pub pod : VolumeClaim
pod = record { bindings = map bound two_devices; options = options }

abbrev pub held : System
held = record start {
  state = record start.state {
    volumes = insert "pond_v" (fresh_volume pod) [];
    allocated = charge pod.bindings [];
  };
}
