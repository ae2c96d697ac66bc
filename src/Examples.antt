-- ===== src/Examples.antt =====
-- Concrete inputs: tests of the definitions, and an instance of each theorem that has hypotheses.
mod Operator
mod Cluster
mod Scheduler
mod Pool
mod Ponds
mod Sessions
mod Volumes
mod Witnesses
mod Job
mod Backend
mod Spawn
