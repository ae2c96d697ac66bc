-- ===== src/Kiss/Spawn/Completion.antt =====
-- What the job operator makes of a job that the client created.
use eecs_k8s.Prelude.{ap, ◌∙◌, ap, ◌∙◌, String, ◌≡◌, refl, false, Option, none, some, List, [], ◌∷◌}
use eecs_k8s.Prelude.Int.{pos}
use eecs_k8s.Prelude.Flow.{Outcome, ok}
use eecs_k8s.Kiss.Box.{BoxState}
use eecs_k8s.Kiss.Ansible.{AnsibleJob}
use eecs_k8s.Kiss.Operator.{Action, requeue}
use eecs_k8s.Kiss.Job.{
  find_label, label_completed_state, Job, JobContext, JobEvent, JobError, state_patched,
  state_reported, patch_box, completed_state, get_box_name, is_critical, reconcile_managed,
  reconcile_job, complete_job, update_box_state,
}
use eecs_k8s.Kiss.Spawn.{AnsibleClient, labels_of, complete_option, completed_label}

-- The job, once it has succeeded.
abbrev pub succeeded_job : AnsibleClient → AnsibleJob → Job
succeeded_job client job = record {
  labels = labels_of client job;
  status = some (record { succeeded = some (pos 1); failed = none });
}

-- What the end of a job writes to its box: the state that completes the job's, if there is one.
abbrev pub completion : JobContext → String → Option BoxState → List JobEvent
completion ctx name none = []
completion ctx name (some state) = state_patched name state ctx.now ∷ state_reported state ∷ []

module _ (client : AnsibleClient) (job : AnsibleJob) (ctx : JobContext) where
  name_read :
      get_box_name (succeeded_job client job) ≡ some (client.show_uuid job.target.spec.machine.uuid)
  unfolding get_box_name labels_of
  name_read = refl

  critical_read : job.is_critical ≡ false → is_critical (succeeded_job client job) ≡ false
  unfolding is_critical labels_of
  critical_read h = rw h refl

  state_read :
      ((s : BoxState) → ctx.parse_state (client.show_state s) ≡ some s)
      → completed_state ctx (succeeded_job client job) ≡ complete_option job.new_state
  unfolding completed_state labels_of
  state_read h = reread (complete_option job.new_state)
    where
      reread :
          (o : Option BoxState)
          → elim (find_label (completed_label client o) label_completed_state)
              as (λ _. Option BoxState) [ none ↦ none | some text ↦ ctx.parse_state text ]
            ≡ o
      reread none = refl
      reread (some s) = h s

  module _ (patches : (name : String) (s : BoxState) → ctx.patch_status name s ≡ none)
      (publishes : (s : BoxState) → ctx.publish s ≡ none) where
    update_read :
        (s : BoxState)
        → update_box_state ctx (succeeded_job client job) s ≡ (
          ok (requeue ctx.interval),
          completion ctx (client.show_uuid job.target.spec.machine.uuid) (some s),
        )
    unfolding update_box_state patch_box
    update_read s =
        rw (name_read)
          (rw (patches (client.show_uuid job.target.spec.machine.uuid) s) (rw (publishes s) refl))

    complete_read :
        (o : Option BoxState)
        → complete_job ctx (succeeded_job client job) o ≡ (
          ok (requeue ctx.interval),
          completion ctx (client.show_uuid job.target.spec.machine.uuid) o,
        )
    unfolding complete_job
    complete_read none = refl
    complete_read (some s) = update_read s

    -- A job that the client created and that succeeded sets the box of its target, and no other, to
    -- the state that completes the job's state, and to none where there is no such state; if the job
    -- is not critical, the texts of the states are read back and the services answer.
    pub reconcile_job-labels_of :
        job.is_critical ≡ false
        → ((s : BoxState) → ctx.parse_state (client.show_state s) ≡ some s)
        → reconcile_job ctx (succeeded_job client job) ≡ (
          ok (requeue ctx.interval),
          completion ctx
              (client.show_uuid job.target.spec.machine.uuid)
              (complete_option job.new_state),
        )
    unfolding reconcile_job get_box_name labels_of
    reconcile_job-labels_of ordinary reads = managed
      where
        answered : Option BoxState → Outcome JobError Action Action × List JobEvent
        answered o = (
          ok (requeue ctx.interval),
          completion ctx (client.show_uuid job.target.spec.machine.uuid) o,
        )

        managed : reconcile_managed ctx (succeeded_job client job) ≡ (
          ok (requeue ctx.interval),
          completion ctx
              (client.show_uuid job.target.spec.machine.uuid)
              (complete_option job.new_state),
        )
        managed = rw ordinary (
            complete_read (completed_state ctx (succeeded_job client job))
            ∙ ap answered (state_read reads))
