-- ===== src/Spectrum/Reference.antt =====
-- crates/openark-spectrum-api/src/common.rs: `ObjectReference` and its text, the key of the store.
use eecs_k8s.Prelude.{String, Bool, true, false, Option, none, some, str_eq}
use Prim.Native.String.{◌++◌}

pub record ObjectReference : Type 0 where
  pub group : String
  pub kind : String
  pub name : String
  pub namespace : Option String

unfoldable pub show_parts : Bool → String → String → String → Option String → String
show_parts true group kind name none = kind ++ "/" ++ name
show_parts true group kind name (some namespace) = kind ++ "/" ++ namespace ++ "/" ++ name
show_parts false group kind name none = group ++ "/" ++ kind ++ "//" ++ name
show_parts false group kind name (some namespace) =
    group ++ "/" ++ kind ++ "/" ++ namespace ++ "/" ++ name

-- `to_string`
unfoldable pub to_string : ObjectReference → String
unfolding show_parts
to_string r = show_parts (str_eq r.group "") r.group r.kind r.name r.namespace
