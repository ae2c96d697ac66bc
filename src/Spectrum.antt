-- ===== src/Spectrum.antt =====
-- Spectrum: pools of resources that are scheduled among claims.
pub mod Float
pub mod Reference
pub mod Table
pub mod Pool
pub mod Schema
pub mod Item
pub mod Milp
pub mod Scheduler
