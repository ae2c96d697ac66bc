-- ===== src/Examples/Witnesses.antt =====
-- The theorems on the storage driver, at the inputs of the tests.
use eecs_k8s.Prelude.{
  unwrap_or, ◌%◌, String, ◌≡◌, refl, false, none, some, List, [], ◌∷◌, All, ◌||◌,
}
use eecs_k8s.Prelude.I64.{modulus}
use eecs_k8s.Prelude.Dict.{string_eq, Dict, get}
use eecs_k8s.DataPond.Options.{Mode, VolumeCapability, block, apply_volume_capabilities}
use eecs_k8s.DataPond.Options.Sharing.{
  Decided, refuses, is_shared_by, apply_volume_capabilities-Decided,
}
use eecs_k8s.DataPond.Action.After.{After, Always}
use eecs_k8s.DataPond.Candidates.{DeviceKey}
use eecs_k8s.DataPond.Controller.{Volume}
use eecs_k8s.DataPond.Controller.Handler.{delete_volume}
use eecs_k8s.DataPond.Controller.Create.{create_volume, volume_id_of}
use eecs_k8s.DataPond.Controller.Spec.{fresh_volume}
use eecs_k8s.DataPond.Controller.Run.{run}
use eecs_k8s.DataPond.Controller.Effects.{
  Unchanged, Created, Removed, create_volume-Created, delete_volume-Removed,
}
use eecs_k8s.DataPond.Controller.Accounts.{used, claimed_on}
use eecs_k8s.DataPond.Controller.Accounts.Undo.{undone, remove_volume-store_volume}
use eecs_k8s.DataPond.Controller.Accounts.Balance.{Books, create_volume-Books, delete_volume-Books}
use eecs_k8s.DataPond.Controller.Accounts.Balance.{store-IsAccounted}
use eecs_k8s.Prelude.Dict.{get-insert_self}
use eecs_k8s.DataPond.Types.{DeviceLayer, VolumeBindingContext}
use eecs_k8s.DataPond.Context.{NodeDriver}
use eecs_k8s.DataPond.Node.{NodePublishVolumeRequest, handle_node_publish}
use eecs_k8s.DataPond.Node.Belongs.{Belongs, handle_node_publish-Belongs}
use eecs_k8s.Examples.Volumes.{willing}
use eecs_k8s.Examples.Ponds.{options, disk}
use eecs_k8s.Examples.Volumes.{cluster, driver, start, requests, new_volume, pod, held}

create_volume-Created_example :
    After
      (Created cluster [] [] driver new_volume)
      (Unchanged cluster [] [])
      (create_volume cluster driver new_volume start)
create_volume-Created_example =
    create_volume-Created cluster [] [] driver new_volume start refl refl

no_volume : (id : String) → get start.state.volumes id ≡ none
unfolding get
no_volume id = refl

start-Books : Books start
unfolding claimed_on get
start-Books = record { unique = tt; entries = tt; balanced = λ k. refl }

create_volume-Books_example : Always Books (create_volume cluster driver new_volume start)
create_volume-Books_example =
    create_volume-Books cluster driver new_volume start start-Books
      (no_volume (volume_id_of new_volume.name))

held_volume : get held.state.volumes "pond_v" ≡ some (fresh_volume pod)
held_volume = get-insert_self "pond_v" (fresh_volume pod) []

held-Books : Books held
held-Books = store-IsAccounted "pond_v" pod [] [] start-Books (no_volume "pond_v")

delete_volume-Books_example : Always Books (delete_volume cluster "pond_v" held)
delete_volume-Books_example =
    delete_volume-Books cluster "pond_v" (fresh_volume pod) held held-Books held_volume

delete_volume-Removed_example :
    After
      (λ _. Removed cluster held.state.volumes held.state.allocated "pond_v" (fresh_volume pod))
      (Unchanged cluster held.state.volumes held.state.allocated)
      (delete_volume cluster "pond_v" held)
delete_volume-Removed_example =
    delete_volume-Removed cluster held.state.volumes held.state.allocated "pond_v"
      (fresh_volume pod) held refl refl held_volume

remove_volume-store_volume_example :
    ((undone "pond_v" (fresh_volume pod) start.state).volumes ≡ start.state.volumes)
    × ((k : DeviceKey)
        → used (undone "pond_v" (fresh_volume pod) start.state).allocated k % modulus
          ≡ used start.state.allocated k % modulus)
remove_volume-store_volume_example =
    remove_volume-store_volume "pond_v" (fresh_volume pod) start.state (no_volume "pond_v")

-- The volume that two nodes read.
abbrev read_volume : Volume
unfolding run get
read_volume = unwrap_or (get (run driver requests start).state.volumes "pond_v") (fresh_volume pod)

-- Several nodes, and then a block device.
abbrev shared_block : List VolumeCapability
shared_block =
    record { access_mode = some Mode.multi_node_reader_only; access_type = none }
    ∷ record { access_mode = none; access_type = some block }
    ∷ []

apply_volume_capabilities-Decided_example :
    Decided
      (refuses options.mount_shared shared_block)
      (options.mount_shared || is_shared_by shared_block)
      (apply_volume_capabilities shared_block options)
apply_volume_capabilities-Decided_example = apply_volume_capabilities-Decided shared_block options

abbrev part : VolumeBindingContext
part = record {
  addr = "10.0.0.1";
  device = disk "a" 104_857_600;
  layer = DeviceLayer.lvm;
  metadata = record {
    volume_id = "pond_v";
    device_id = "a";
    index_bindings = 0;
    total_bindings = 1;
    offset = 0;
    reserved = 37_748_736;
  };
  source = (disk "a" 104_857_600).source;
}

abbrev node_driver : NodeDriver
node_driver = record {
  fs_type = "ext4";
  decode_bindings = λ text. some (part ∷ []);
  decode_layer = λ text. some DeviceLayer.lvm;
}

abbrev stage : NodePublishVolumeRequest
stage = record {
  publish_context =
      ("data-pond.csi.ulagbulag.io/bindings", "[]")
      ∷ ("data-pond.csi.ulagbulag.io/layer", "lvm")
      ∷ [];
  read_only = false;
  staging_target_path = "/stage";
  target_path = none;
  volume_capability = none;
  volume_id = "pond_v";
}

handle_node_publish-Belongs_example :
    All (Belongs "pond_v") (handle_node_publish willing node_driver "stage" stage).1
handle_node_publish-Belongs_example = handle_node_publish-Belongs willing node_driver "stage" stage
