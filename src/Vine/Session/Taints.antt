-- ===== src/Vine/Session/Taints.antt =====
-- crates/openark-vine-session-api/src/lib.rs: the taints of a node, which drive its pods away.
use eecs_k8s.Prelude.{
  ℕ, ◌+◌, ◌-◌, String, str_eq, Bool, ◌&&◌, Option, none, some, List, [], ◌∷◌, ltb, unwrap_or,
  if◌then◌else◌,
}
use eecs_k8s.Vine.Session.{Taint}

unfoldable pub filter_taint : String → Taint → Bool
filter_taint key taint = str_eq taint.key key && str_eq taint.effect "NoExecute"

-- The taints, and the time at which the taint was added.
unfoldable pub set_taint : (key value : String) (timestamp : ℕ) → List Taint → List Taint × ℕ
unfolding filter_taint
set_taint key value timestamp [] = (
  record { key = key; value = some value; effect = "NoExecute"; time_added = some timestamp } ∷ [],
  timestamp,
)
set_taint key value timestamp (t ∷ ts) =
    let more = set_taint key value timestamp ts in
    if filter_taint key t
    then (record t { value = some value } ∷ ts, unwrap_or t.time_added timestamp)
    else (t ∷ more.0, more.1)

-- The first such taint is removed.
unfoldable pub remove_taint : String → List Taint → List Taint
unfolding filter_taint
remove_taint key [] = []
remove_taint key (t ∷ ts) =
    let more = remove_taint key ts in if filter_taint key t then ts else t ∷ more

-- What is left from a time to the end of signing out.
unfoldable pub remaining_from : (duration time_added timestamp : ℕ) → Option ℕ
remaining_from duration time_added timestamp =
    if ltb timestamp (time_added + duration) then some (time_added + duration - timestamp) else none

abbrev pub added_at : Option Taint → Option ℕ
added_at none = none
added_at (some taint) = taint.time_added

abbrev pub remaining_of : (duration : ℕ) → Option ℕ → (timestamp : ℕ) → Option ℕ
unfolding remaining_from
remaining_of duration none timestamp = none
remaining_of duration (some time) timestamp = remaining_from duration time timestamp
