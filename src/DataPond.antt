-- ===== src/DataPond.antt =====
-- contrib/data-pond: the storage driver, its controller, its nodes and its ponds.
pub mod Types
pub mod Options
pub mod Attributes
pub mod Binding
pub mod Candidates
pub mod Picking
pub mod Server
pub mod Context
pub mod Node
pub mod Action
pub mod Controller
