-- ===== src/DataPond/Attributes.antt =====
-- The attributes of a volume: contrib/data-pond-api/src/lib.rs, and their reading from the parameters
-- of a request in contrib/data-pond/src/volume.rs.
use eecs_k8s.Prelude.{
  String, ◌≡◌, refl, Option, none, some, List, [], ◌∷◌, ◌++◌, str_eq, if◌then◌else◌,
}
use eecs_k8s.Prelude.Panic.{Result, ok, err}
use eecs_k8s.Prelude.Dict.{string_eq, Dict, get, extend}
use eecs_k8s.DataPond.Types.{Status, invalid_argument, DeviceLayer}

pub record VolumeAttributes : Type 0 where
  pub layer : DeviceLayer
  pub pv_name : Option String
  pub pvc_name : Option String
  pub pvc_namespace : Option String
  pub num_replicas : Option String

unfoldable pub default_device_layer : DeviceLayer
default_device_layer = DeviceLayer.lvm

-- The names of the layers are in snake case.
unfoldable pub show_layer : DeviceLayer → String
show_layer DeviceLayer.unknown = "unknown"
show_layer DeviceLayer.lvm = "lvm"

unfoldable pub parse_layer : String → Option DeviceLayer
parse_layer text =
    if str_eq text "unknown"
    then some DeviceLayer.unknown
    else if str_eq text "lvm"
    then some DeviceLayer.lvm
    else none

unfoldable pub layer_of : Option String → Option DeviceLayer
unfolding default_device_layer parse_layer
layer_of none = some default_device_layer
layer_of (some text) = parse_layer text

unfoldable pub attributes_of :
    Dict String String → Option DeviceLayer → Result Status VolumeAttributes
attributes_of d none = err (invalid_argument "Invalid attributes: ")
attributes_of d (some layer) = ok record {
  layer = layer;
  pv_name = get d "csi.storage.k8s.io/pv/name";
  pvc_name = get d "csi.storage.k8s.io/pvc/name";
  pvc_namespace = get d "csi.storage.k8s.io/pvc/namespace";
  num_replicas = get d "org.ulagbulag.io/num-replicas";
}

-- The later maps replace the entries of the earlier.
unfoldable pub merge : List (Dict String String) → Dict String String → Dict String String
merge [] d = d
merge (params ∷ more) d = merge more (extend d params)

-- `parse` of a list of maps; that of one map is the same up to its message.
unfoldable pub parse : List (Dict String String) → Result Status VolumeAttributes
unfolding layer_of attributes_of merge
parse maps =
    let d = merge maps [] in attributes_of d (layer_of (get d "data-pond.csi.ulagbulag.io/layer"))

unfoldable pub entry : String → Option String → Dict String String
entry key none = []
entry key (some text) = (key, text) ∷ []

-- `serde_json::to_value(&attributes)`, read back as a map of texts.
unfoldable pub export : VolumeAttributes → Dict String String
unfolding show_layer entry
export a =
    ("data-pond.csi.ulagbulag.io/layer", show_layer a.layer)
      ∷ entry "csi.storage.k8s.io/pv/name" a.pv_name
    ++ entry "csi.storage.k8s.io/pvc/name" a.pvc_name
    ++ entry "csi.storage.k8s.io/pvc/namespace" a.pvc_namespace
    ++ entry "org.ulagbulag.io/num-replicas" a.num_replicas

layer_of-show_layer : (l : DeviceLayer) → layer_of (some (show_layer l)) ≡ some l
unfolding layer_of show_layer
layer_of-show_layer DeviceLayer.unknown = refl
layer_of-show_layer DeviceLayer.lvm = refl

parse_entries :
    (l : DeviceLayer) (n p q r : Option String)
    → parse (
        export
          (record { layer = l; pv_name = n; pvc_name = p; pvc_namespace = q; num_replicas = r })
        ∷ [])
      ≡ ok (record { layer = l; pv_name = n; pvc_name = p; pvc_namespace = q; num_replicas = r })
unfolding parse export attributes_of entry merge extend get
parse_entries l (some n) (some p) (some q) (some r) = rw (layer_of-show_layer l) refl
parse_entries l none (some p) (some q) (some r) = rw (layer_of-show_layer l) refl
parse_entries l (some n) none (some q) (some r) = rw (layer_of-show_layer l) refl
parse_entries l none none (some q) (some r) = rw (layer_of-show_layer l) refl
parse_entries l (some n) (some p) none (some r) = rw (layer_of-show_layer l) refl
parse_entries l none (some p) none (some r) = rw (layer_of-show_layer l) refl
parse_entries l (some n) none none (some r) = rw (layer_of-show_layer l) refl
parse_entries l none none none (some r) = rw (layer_of-show_layer l) refl
parse_entries l (some n) (some p) (some q) none = rw (layer_of-show_layer l) refl
parse_entries l none (some p) (some q) none = rw (layer_of-show_layer l) refl
parse_entries l (some n) none (some q) none = rw (layer_of-show_layer l) refl
parse_entries l none none (some q) none = rw (layer_of-show_layer l) refl
parse_entries l (some n) (some p) none none = rw (layer_of-show_layer l) refl
parse_entries l none (some p) none none = rw (layer_of-show_layer l) refl
parse_entries l (some n) none none none = rw (layer_of-show_layer l) refl
parse_entries l none none none none = rw (layer_of-show_layer l) refl

-- The attributes that a volume is created with are read back, from the context that the
-- orchestrator hands on, when the volume is published.
pub parse-export : (a : VolumeAttributes) → parse (export a ∷ []) ≡ ok a
parse-export a = parse_entries a.layer a.pv_name a.pvc_name a.pvc_namespace a.num_replicas
