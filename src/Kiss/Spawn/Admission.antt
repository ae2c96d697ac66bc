-- ===== src/Kiss/Spawn/Admission.antt =====
-- A job for a box that joins is created only where the cluster admits the box.
use eecs_k8s.Prelude.{
  ℕ, sym, ◌≡◌, refl, ◌∙◌, Bool, true, false, not, ◌&&◌, Option, none, some, List, All, arith,
}
use eecs_k8s.Prelude.Flow.{ok, continue_with, All-bind, All-if, call, return, pure}
use eecs_k8s.Kiss.Box.{BoxCrd, BoxSpec}
use eecs_k8s.Kiss.Ansible.{AnsibleJob}
use eecs_k8s.Kiss.Cluster.{ClusterState, load, is_joinable}
use eecs_k8s.Kiss.Operator.{Error}
use eecs_k8s.Kiss.Spawn.{
  AnsibleClient, SpawnEvent, Listed, listed, unlisted, created, deleted_cronjobs, deleted_jobs,
  boxes_of, worker_boxes_of, is_joining, created_of, admit, spawn,
}

-- The cluster of the boxes that were listed admits the target of the job.
abbrev pub IsAdmitted : AnsibleClient → AnsibleJob → SpawnEvent → Type 0
IsAdmitted client job (created c) =
    (boxes : List BoxCrd) × ((client.control_planes ≡ listed boxes)
      × (is_joinable (load client.etcd_nodes_max boxes none job.target.spec) ≡ true))
IsAdmitted client job (deleted_cronjobs name) = Unit
IsAdmitted client job (deleted_jobs name) = Unit

boxes_of-listed :
    (answer : Listed) (boxes : List BoxCrd) → (boxes_of answer).0 ≡ ok boxes → answer ≡ listed boxes
boxes_of-listed (listed bs) boxes h = ground arith
boxes_of-listed (unlisted e) boxes h = cc

is_joinable-load :
    (max : ℕ) (boxes : List BoxCrd) (workers : Option (List BoxCrd)) (spec : BoxSpec)
    → is_joinable (load max boxes workers spec) ≡ is_joinable (load max boxes none spec)
unfolding is_joinable load
is_joinable-load max boxes workers spec = refl

module _ (client : AnsibleClient) (job : AnsibleJob) (joins : is_joining job.new_state ≡ true) where
  admit-IsAdmitted :
      (cluster : ClusterState)
      → (is_joinable cluster ≡ true
          → (boxes : List BoxCrd) × ((client.control_planes ≡ listed boxes)
              × (is_joinable (load client.etcd_nodes_max boxes none job.target.spec) ≡ true)))
      → All (IsAdmitted client job) (admit client job cluster).1
  unfolding admit
  admit-IsAdmitted cluster h =
      All-if (IsAdmitted client job) (is_joining job.new_state && not (is_joinable cluster))
        (return false) _ (λ _. tt)
        λ go.
          made (client.create (created_of client job cluster))
            (h (open_gate (is_joinable cluster) go))
    where
      open_gate : (b : Bool) → (is_joining job.new_state && not b) ≡ false → b ≡ true
      open_gate b go = ground (arith, joins)

      made :
          (e : Option Error)
          → IsAdmitted client job (created (created_of client job cluster))
          → All
              (IsAdmitted client job)
              (continue_with
                (call {R = Bool} (created (created_of client job cluster)) e).0
                (call {R = Bool} (created (created_of client job cluster)) e).1
                (λ _. pure true)).1
      made none a = (a, tt)
      made (some e) a = tt

  deletion :
      (ev : SpawnEvent) (e : Option Error)
      → IsAdmitted client job ev
      → All (IsAdmitted client job) (call {E = Error} {R = Bool} ev e).1
  deletion ev none a = (a, tt)
  deletion ev (some e) a = tt

  -- For a box that is to join, a job is created only where the list of the boxes was answered and
  -- the cluster of those boxes admits the box.
  pub spawn-IsAdmitted : All (IsAdmitted client job) (spawn client job).1
  unfolding spawn
  spawn-IsAdmitted =
      All-bind (IsAdmitted client job) _ _
        (deletion (deleted_cronjobs (client.show_uuid job.target.spec.machine.uuid))
          (client.delete_cronjobs (client.show_uuid job.target.spec.machine.uuid)) tt)
        λ _ _.
          All-bind (IsAdmitted client job) _ _
            (deletion (deleted_jobs (client.show_uuid job.target.spec.machine.uuid))
              (client.delete_jobs (client.show_uuid job.target.spec.machine.uuid)) tt)
            λ _ _.
              All-bind (IsAdmitted client job) (boxes_of client.control_planes) _
                (quiet client.control_planes)
                λ boxes e.
                  All-bind (IsAdmitted client job) (worker_boxes_of job.use_workers client.workers)
                    _ (quiet_workers job.use_workers client.workers)
                    λ workers _.
                      admit-IsAdmitted (load client.etcd_nodes_max boxes workers job.target.spec)
                        λ t. (
                          boxes,
                          (
                            boxes_of-listed client.control_planes boxes e,
                            sym (
                                  is_joinable-load client.etcd_nodes_max boxes workers
                                    job.target.spec)
                                ∙ t,
                          ),
                        )
    where
      quiet : (answer : Listed) → All (IsAdmitted client job) (boxes_of answer).1
      quiet (listed bs) = tt
      quiet (unlisted e) = tt

      quiet_workers :
          (b : Bool) (answer : Listed) → All (IsAdmitted client job) (worker_boxes_of b answer).1
      quiet_workers false answer = tt
      quiet_workers true (listed bs) = tt
      quiet_workers true (unlisted e) = tt
