-- ===== src/Kiss/Backend.antt =====
-- crates/openark-kiss-backend/src/routes: the requests by which a box registers (new.rs) and reports
-- that it is commissioned (commission.rs).
pub mod Renewal
use eecs_k8s.Prelude.{
  ℕ, String, Bool, true, false, Option, none, some, List, [], ◌∷◌, if◌then◌else◌,
}
use eecs_k8s.Prelude.Flow.{Flow, Outcome, ◌>>=◌, ◌>>◌, pure, fail, call}
use eecs_k8s.Kiss.Box.{
  BoxAccessInterfaceSpec, BoxAccessSpec, BoxCrd, BoxGroupSpec, BoxMachineSpec, BoxPowerSpec,
  BoxSpec, BoxStatus, new, ready, default_group,
}
use eecs_k8s.Kiss.Operator.{Error, bind_group}

pub record BoxAccessInterfaceQuery : Type 0 where
  pub address : ℕ
  pub speed_mbps : Option String

pub record BoxNewQuery : Type 0 where
  pub access_primary : BoxAccessInterfaceQuery
  pub machine : BoxMachineSpec

pub record BoxCommissionQuery : Type 0 where
  pub access : Option BoxAccessInterfaceQuery
  pub machine : BoxMachineSpec
  pub power : Option BoxPowerSpec
  pub reset : Bool

-- The errors of a handler: of the service, of a speed that is no number, of an unknown box.
pub data HandlerError : Type 0 where
  service : Error → HandlerError
  bad_speed : HandlerError
  no_such_box : HandlerError

pub data BoxEvent : Type 0 where
  created : BoxSpec → BoxEvent
  spec_patched : BoxSpec → BoxEvent
  status_patched : BoxStatus → BoxEvent

-- What `get_opt` answers.
pub data Found : Type 0 where
  present : BoxCrd → Found
  absent : Found
  unreachable : Error → Found

-- The clock, the answers of the service, and how a speed is read.
pub record Server : Type 0 where
  pub now : ℕ
  pub get_opt : BoxMachineSpec → Found
  pub create : BoxSpec → Option HandlerError
  pub patch : BoxSpec → Option HandlerError
  pub patch_status : BoxStatus → Option HandlerError
  pub parse_speed : String → Option ℕ

abbrev pub Handler : Type 0 → Type 0
Handler A = Flow BoxEvent HandlerError (Unit {0}) A

abbrev pub or_bad_speed : Option ℕ → Handler (Option ℕ)
or_bad_speed none = fail bad_speed
or_bad_speed (some n) = pure (some n)

unfoldable pub speed : Server → Option String → Handler (Option ℕ)
speed sv none = pure none
speed sv (some text) = or_bad_speed (sv.parse_speed text)

-- `BoxAccessInterfaceSpec::try_from`
unfoldable pub interface_of : Server → BoxAccessInterfaceQuery → Handler BoxAccessInterfaceSpec
unfolding speed
interface_of sv q = do
  s ← speed sv q.speed_mbps
  pure (record { address = q.address; speed_mbps = s })

-- `BoxAccessSpec::try_from`
unfoldable pub access_of : Server → Option BoxAccessInterfaceQuery → Handler BoxAccessSpec
unfolding interface_of
access_of sv none = pure (record { primary = none })
access_of sv (some q) = do i ← interface_of sv q; pure (record { primary = some i })

abbrev pub new_status : Server → BoxAccessInterfaceSpec → Option BoxGroupSpec → BoxStatus
new_status sv i group = record {
  state = new;
  access = record { primary = some i };
  bind_group = group;
  last_updated = sv.now;
}

abbrev pub new_spec : BoxNewQuery → BoxSpec
new_spec q = record { group = default_group; machine = q.machine; power = none }

-- `try_handle` of new.rs, on what `get_opt` answers.
unfoldable pub register : Server → BoxNewQuery → Found → Handler (Unit {0})
unfolding interface_of bind_group
register sv q (unreachable e) = fail (service e)
register sv q (present b) = do
  i ← interface_of sv q.access_primary
  call (status_patched (new_status sv i (bind_group b)))
      (sv.patch_status (new_status sv i (bind_group b)))
register sv q absent = do
  call (created (new_spec q)) (sv.create (new_spec q))
  i ← interface_of sv q.access_primary
  call (status_patched (new_status sv i none)) (sv.patch_status (new_status sv i none))

abbrev pub commission_spec : BoxCommissionQuery → BoxCrd → BoxSpec
commission_spec q b = record { group = b.spec.group; machine = q.machine; power = q.power }

abbrev pub commission_status : Server → BoxCommissionQuery → BoxCrd → BoxAccessSpec → BoxStatus
commission_status sv q b access = record {
  state = ready;
  access = access;
  bind_group = if q.reset then none else bind_group b;
  last_updated = sv.now;
}

-- `try_handle` of commission.rs, on what `get_opt` answers.
unfoldable pub commission : Server → BoxCommissionQuery → Found → Handler (Unit {0})
unfolding access_of bind_group
commission sv q (unreachable e) = fail (service e)
commission sv q absent = fail no_such_box
commission sv q (present b) = do
  access ← access_of sv q.access
  call (spec_patched (commission_spec q b)) (sv.patch (commission_spec q b))
  call (status_patched (commission_status sv q b access))
      (sv.patch_status (commission_status sv q b access))

unfoldable pub try_register : Server → BoxNewQuery → Handler (Unit {0})
unfolding register
try_register sv q = register sv q (sv.get_opt q.machine)

unfoldable pub try_commission : Server → BoxCommissionQuery → Handler (Unit {0})
unfolding commission
try_commission sv q = commission sv q (sv.get_opt q.machine)

-- The effect of the patches on the stored box.
unfoldable pub apply_event : BoxEvent → BoxCrd → BoxCrd
apply_event (created spec) b = b
apply_event (spec_patched spec) b = record b { spec = spec }
apply_event (status_patched status) b = record b { status = some status }

unfoldable pub apply_events : List BoxEvent → BoxCrd → BoxCrd
unfolding apply_event
apply_events [] b = b
apply_events (e ∷ es) b = apply_events es (apply_event e b)
