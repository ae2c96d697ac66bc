-- ===== src/Vine.antt =====
-- Vine: the desktop sessions of the users on the nodes.
pub mod Session
pub mod Operator
