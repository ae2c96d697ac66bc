-- ===== src/Lib.antt =====
-- OpenARK: models and proofs of the parts of the platform that decide.
--
-- The platform is a set of services over Kubernetes. Four subsystems are modelled.
--
-- KISS provisions bare-metal boxes. A box reports itself to a backend and then goes through the states
-- of its custom resource. The operator reconciles a box: it moves the state on, spawns an Ansible job
-- for the new state, and writes the status. The Ansible client lets a job start only where the
-- cluster that the box belongs to admits it.
--   Kiss.Box, Kiss.Box.Equality      crates/openark-kiss-api/src/box.rs
--   Kiss.Ansible, Kiss.Spawn         crates/openark-kiss-ansible/src/lib.rs, the jobs and `spawn`
--   Kiss.Group, Kiss.Cluster         crates/openark-kiss-ansible/src/cluster.rs
--   Kiss.Operator                    crates/openark-kiss-operator/src/box.rs, `reconcile`
--   Kiss.Job                         crates/openark-kiss-operator/src/job.rs
--   Kiss.Backend                     crates/openark-kiss-backend/src/routes/{new,commission}.rs
-- `reconcile` is a computation with early returns and errors (Prelude.Flow) that writes the list of
-- its calls to other services; what a call answers is a field of the context. UUIDs, addresses
-- and times are numbers. Kiss.Cluster has a module for each property: the queue of the
-- nodes that may join, the members of etcd, the leader, and the loading of the nodes. So has
-- Kiss.Operator.Reconcile: the arrows of the life cycle, the guards on what is written, the order of
-- the calls, and the timeouts.
--
-- Spectrum shares the resources of a pool among claims. The scheduler gives every claim a set of
-- resources by a sequence of integer programs, and the pool commits the result: it writes who holds
-- a resource, and runs the probes that prepare it.
--   Spectrum.Schema, Spectrum.Reference  crates/openark-spectrum-api/src/{schema,pool_claim,common}.rs
--   Spectrum.Item                    crates/openark-spectrum-scheduler/src/{item,state}.rs
--   Spectrum.Milp                    crates/openark-spectrum-scheduler/src/solvers/milp.rs
--   Spectrum.Scheduler               crates/openark-spectrum-scheduler/src/lib.rs
--   Spectrum.Pool                    crates/openark-spectrum-pool/src/{store,pool}.rs
--   Spectrum.Pool.Handler            crates/openark-spectrum-pool/src/routes/service.rs
-- An index out of range, `expect` and `assert_eq` are the value `panic` of a result (Prelude.Panic). A
-- `BTreeSet` is a list in order (Prelude.Set), a `BTreeMap` a list in the order of its keys.
-- f64 is a record of operations (Spectrum.Float), with the laws that a theorem uses as hypotheses;
-- the solver is a function from the program to a solution, arbitrary where a theorem does not
-- say that it is honest, which is that its solutions meet the constraints as numbers, with no
-- tolerance. The database of the pool is an interface (Spectrum.Table), and what a probe answers is a
-- parameter. A write transaction of the database excludes every other, so a commit and the end of a
-- task are one step each. No definition needs fuel: every loop goes over a list.
--
-- Data Pond gives volumes out of the disks of the nodes, as a CSI driver. The controller keeps the
-- volumes and what is reserved on each device, asks the ponds, which are the servers of the nodes, for
-- their devices and for the bindings they know, and has them allocate a volume's place. A node then
-- stages and publishes a volume by programs.
--   DataPond.Types, Attributes       contrib/data-pond-api, contrib/data-pond-csi
--   DataPond.Options, Binding, Context  contrib/data-pond/src/volume.rs
--   DataPond.Candidates, Picking     contrib/data-pond/src/controller.rs, the devices of `create_volume`
--   DataPond.Controller              contrib/data-pond/src/controller.rs, its state and its requests
--   DataPond.Server                  contrib/data-pond/src/{pond,main}.rs
--   DataPond.Node                    contrib/data-pond/src/node.rs
-- An i64 is a number below 2 ^ 64 that wraps (Prelude.I64), as in a release build. A request is an
-- action on the controller and the ponds, which answers a result and leaves the state as it is where
-- it stops (DataPond.Action); DataPond.Controller.Run is a sequence of them. What the resolver, the
-- transport and the programs of the ponds answer is a parameter (Cluster), different for each
-- request. A map is a list of its entries (Prelude.Dict). DataPond.Controller.Spec says what the
-- volumes promise, and DataPond.Controller.Accounts what the account of a device is.
--
-- Vine binds the nodes to the sessions of users. The operator reads the session of a node from its labels and
-- taints, chooses the binding with the least priority that selects the node, binds the node to its profile,
-- creates or deletes the application of the session, and signs the node out when the profile changes.
--   Vine.Session                     crates/openark-vine-session-api/src/{lib,profile,binding}.rs
--   Vine.Operator                    crates/openark-vine-session-operator/src/main.rs
-- `reconcile` is a computation as that of KISS (Prelude.Flow). Times are in milliseconds from the epoch.
-- Vine.Operator.Granted says what a call needs, and Vine.Operator.Deferred what is left as it is
-- while the application of a session is being deleted.
--
-- Not modelled: reading and writing Kubernetes resources, the watch loops, HTTP, tracing, errors of
-- the database, and the other services of the repository (DNS, the other parts of Vine, the web applications, and
-- the discovery of devices in Data Pond), and the Helm charts and images.
pub mod Prelude
pub mod Kiss
pub mod Spectrum
pub mod DataPond
pub mod Vine
pub mod Examples
