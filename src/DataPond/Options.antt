-- ===== src/DataPond/Options.antt =====
-- contrib/data-pond/src/volume.rs, `VolumeOptionsExt`, and the default options of main.rs.
pub mod Sharing
use eecs_k8s.Prelude.{
  arith, ◌≡◌, ◌||◌, String, Bool, true, false, Option, none, some, List, [], ◌∷◌, str_eq,
  if◌then◌else◌,
}
use eecs_k8s.Prelude.Panic.{Yields, Result, ok, err, ◌>>=◌}
use eecs_k8s.DataPond.Types.{Status, VolumeOptions, invalid_argument}

pub data Mode : Type 0 where
  unknown single_node_writer single_node_reader_only multi_node_reader_only : Mode
  multi_node_single_writer multi_node_multi_writer single_node_single_writer : Mode
  single_node_multi_writer : Mode

pub data AccessType : Type 0 where
  block : AccessType
  mount : (fs_type : String) (mount_flags : List String) (volume_mount_group : String) → AccessType

pub record VolumeCapability : Type 0 where
  pub access_mode : Option Mode
  pub access_type : Option AccessType

abbrev pub default_capability : VolumeCapability
default_capability = record { access_mode = none; access_type = none }

-- `DefaultSettings::volume_options`
unfoldable pub volume_options : String → VolumeOptions
volume_options fs_type = record {
  fs_type = some fs_type;
  mount_flags = [];
  mount_group = "";
  mount_shared = false;
}

unfoldable pub is_multi_node : Option Mode → Bool
is_multi_node (some Mode.multi_node_multi_writer) = true
is_multi_node (some Mode.multi_node_reader_only) = true
is_multi_node (some Mode.multi_node_single_writer) = true
is_multi_node (some _) = false
is_multi_node none = false

unfoldable pub apply_access_mode : Option Mode → VolumeOptions → VolumeOptions
unfolding is_multi_node
apply_access_mode mode o = if is_multi_node mode then record o { mount_shared = true } else o

-- The type of a file system is parsed as a text, which never fails.
unfoldable pub apply_access_type : Option AccessType → VolumeOptions → Result Status VolumeOptions
apply_access_type (some block) o =
    if o.mount_shared
    then err (invalid_argument "Multi node PVC is not supported as a block device access mode")
    else ok record o { fs_type = none; mount_flags = []; mount_group = "" }
apply_access_type (some (mount fs_type flags group)) o = ok record o {
  fs_type = if str_eq fs_type "" then o.fs_type else some fs_type;
  mount_flags = flags;
  mount_group = group;
}
apply_access_type none o = ok o

unfoldable pub apply_volume_capability :
    VolumeCapability → VolumeOptions → Result Status VolumeOptions
unfolding apply_access_mode apply_access_type
apply_volume_capability c o = apply_access_type c.access_type (apply_access_mode c.access_mode o)

unfoldable pub apply_volume_capabilities :
    List VolumeCapability → VolumeOptions → Result Status VolumeOptions
unfolding apply_volume_capability
apply_volume_capabilities [] o = ok o
apply_volume_capabilities (c ∷ cs) o =
    apply_volume_capability c o >>= λ next. apply_volume_capabilities cs next
