-- ===== src/Kiss/Job.antt =====
-- crates/openark-kiss-operator/src/job.rs: what the end of an Ansible job writes to its box.
pub mod Writes
pub mod Total
use eecs_k8s.Prelude.{
  ℕ, String, Bool, true, false, Option, none, some, List, [], ◌∷◌, str_eq, unwrap_or, if◌then◌else◌,
}
use eecs_k8s.Prelude.Int.{ℤ, pos, ltb_ℤ}
use eecs_k8s.Prelude.Flow.{Flow, Outcome, ◌>>=◌, ◌>>◌, pure, return, fail, call}
use eecs_k8s.Kiss.Box
use eecs_k8s.Kiss.Box.{BoxState}
use eecs_k8s.Kiss.Operator.{Error, Action, requeue, await_change}

-- The counts of a job's status are i32.
pub record JobStatus : Type 0 where
  pub succeeded : Option ℤ
  pub failed : Option ℤ

pub record Job : Type 0 where
  pub labels : List (String × String)
  pub status : Option JobStatus

pub data JobError : Type 0 where
  service : Error → JobError
  panicked : JobError

pub data JobEvent : Type 0 where
  state_patched : String → BoxState → ℕ → JobEvent
  state_reported : BoxState → JobEvent

-- The clock, the answers of the services, and the derived reading of a state.
pub record JobContext : Type 0 where
  pub interval : ℕ
  pub now : ℕ
  pub patch_status : String → BoxState → Option Error
  pub publish : BoxState → Option Error
  pub parse_state : String → Option BoxState

abbrev pub JobStep : Type 0 → Type 0
JobStep A = Flow JobEvent JobError Action A

abbrev pub label_box_name : String
label_box_name = "kiss.ulagbulag.io/box_name"

abbrev pub label_completed_state : String
label_completed_state = "kiss.ulagbulag.io/completed_state"

abbrev pub label_job_is_critical : String
label_job_is_critical = "kiss.ulagbulag.io/is_critical"

unfoldable pub find_label : List (String × String) → String → Option String
find_label [] label = none
find_label ((k, v) ∷ ls) label = if str_eq k label then some v else find_label ls label

-- `bool::from_str`
unfoldable pub parse_bool : String → Option Bool
parse_bool text =
    if str_eq text "true" then some true else if str_eq text "false" then some false else none

-- `get_label`: a value that does not parse is as none.
unfoldable pub get_label : {T : Type 0} → (String → Option T) → Job → String → Option T
unfolding find_label
get_label parse job label = elim (find_label job.labels label) [
  | none ↦ none
  | some text ↦ parse text
]

unfoldable pub get_box_name : Job → Option String
unfolding get_label
get_box_name job = get_label (λ text. some text) job label_box_name

unfoldable pub is_critical : Job → Bool
unfolding get_label parse_bool
is_critical job = unwrap_or (get_label parse_bool job label_job_is_critical) false

unfoldable pub completed_state : JobContext → Job → Option BoxState
unfolding get_label
completed_state ctx job = get_label ctx.parse_state job label_completed_state

abbrev pub is_positive : Option ℤ → Bool
is_positive none = false
is_positive (some n) = ltb_ℤ (pos 0) n

unfoldable pub has_completed : Job → Bool
has_completed job = elim job.status [ none ↦ false | some status ↦ is_positive status.succeeded ]

unfoldable pub has_failed : Job → Bool
has_failed job = elim job.status [ none ↦ false | some status ↦ is_positive status.failed ]

abbrev pub as_error : Option Error → Option JobError
as_error none = none
as_error (some e) = some (service e)

-- `get_box_name(job).unwrap()`
unfoldable pub patch_box : JobContext → Option String → BoxState → JobStep Action
patch_box ctx none state = fail panicked
patch_box ctx (some name) state = do
  call (state_patched name state ctx.now) (as_error (ctx.patch_status name state))
  call (state_reported state) (as_error (ctx.publish state))
  pure (requeue ctx.interval)

unfoldable pub update_box_state : JobContext → Job → BoxState → JobStep Action
unfolding patch_box get_box_name
update_box_state ctx job state = patch_box ctx (get_box_name job) state

unfoldable pub complete_job : JobContext → Job → Option BoxState → JobStep Action
unfolding update_box_state
complete_job ctx job (some state) = update_box_state ctx job state
complete_job ctx job none = pure (requeue ctx.interval)

unfoldable pub reconcile_managed : JobContext → Job → JobStep Action
unfolding is_critical completed_state has_completed has_failed complete_job update_box_state
reconcile_managed ctx job =
    if is_critical job
    then return await_change
    else if has_completed job
    then complete_job ctx job (completed_state ctx job)
    else if has_failed job
    then update_box_state ctx job Box.failed
    else pure (requeue ctx.interval)

-- `reconcile`: a job without the name of a box is not managed.
unfoldable pub reconcile_job : JobContext → Job → JobStep Action
unfolding get_box_name reconcile_managed
reconcile_job ctx job = elim (get_box_name job) [
  | none ↦ return await_change
  | some name ↦ reconcile_managed ctx job
]
