-- ===== src/Kiss.antt =====
-- KISS: the provisioning of the machines (boxes) of a cluster.
pub mod Box
pub mod Ansible
pub mod Group
pub mod Cluster
pub mod Operator
pub mod Backend
pub mod Job
pub mod Spawn
