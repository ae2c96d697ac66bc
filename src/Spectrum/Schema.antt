-- ===== src/Spectrum/Schema.antt =====
-- crates/openark-spectrum-api/src/schema.rs and pool_claim.rs: the states of a binding, and the
-- probes of a claim.
use eecs_k8s.Prelude.{ℕ, zero, suc, String, ◌≡◌, refl, Bool, Option, none, some, List}

pub data CommitState : Type 0 where
  pending preparing running : CommitState

-- `state as u8`
unfoldable pub as_raw : CommitState → ℕ
as_raw pending = 0
as_raw preparing = 1
as_raw running = 2

unfoldable pub from_raw : ℕ → Option CommitState
from_raw zero = some pending
from_raw (suc zero) = some preparing
from_raw (suc (suc zero)) = some running
from_raw _ = none

abbrev pub default_state : CommitState
default_state = pending

pub record PoolResource (T : Type 0) : Type 0 where
  pub claim : Option T
  pub state : CommitState

pub data PoolResourceHttpMethod : Type 0 where
  delete get patch post : PoolResourceHttpMethod

-- The body is the text of its JSON.
pub record PoolResourceHttpProbe : Type 0 where
  pub method : PoolResourceHttpMethod
  pub path : String
  pub port : ℕ
  pub secure : Bool
  pub body : Option String

pub data PoolResourceProbe : Type 0 where
  http : PoolResourceHttpProbe → PoolResourceProbe

pub record PoolResourceLifecycle : Type 0 where
  pub pre_start : List PoolResourceProbe

pub from_raw-as_raw : (s : CommitState) → from_raw (as_raw s) ≡ some s
unfolding from_raw as_raw
from_raw-as_raw pending = refl
from_raw-as_raw preparing = refl
from_raw-as_raw running = refl
