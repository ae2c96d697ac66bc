-- ===== src/DataPond/Controller/Modes.antt =====
-- Every volume that the controller holds has a history, in which its nodes are in one mode.
use eecs_k8s.Prelude.{String, ◌≡◌, Bool, some}
use eecs_k8s.Prelude.Dict.{Dict, string_eq}
use eecs_k8s.DataPond.Controller.{Volume}
use eecs_k8s.DataPond.Controller.Spec.{Volumes}
use eecs_k8s.DataPond.Controller.Spec
use eecs_k8s.DataPond.Controller.Exclusive.{History, Consistent}
use eecs_k8s.DataPond.Controller.Exclusive

-- Every volume of the map has a history.
abbrev AllPast : Volumes → Type 0
AllPast f =
    (id : String) (v : Volume) → f id ≡ some v → (modes : Dict String Bool) × History v modes
