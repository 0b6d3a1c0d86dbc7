-- ===== src/Store/Fields.antt =====
-- `update_job_fields` of src/store/control_updates.rs on a running job.
use slotd.Prelude.{ℕ, ◌≡◌, refl, ap, false, none, some, ℤ, err, message, lit}
use slotd.Job.{JobRecord, running, pending, is_terminal, state_eq}
use slotd.Store.Table.{Store, get_job, is_pending}
use slotd.Store.Control.{
  update_job_fields, stages, after, name_stage, partition_stage, limit_stage, priority_stage, stage,
}
use slotd.Store.Requeue.{get_job-update_job}

-- On a running job, a new time limit together with a new priority is refused, and the new time limit
-- stays in the table.
pub update_job_fields-partial :
    (id limit : ℕ) (priority : ℤ) (s : Store) (job : JobRecord)
    → get_job s id ≡ some job
    → job.state ≡ running
    → let after_update = update_job_fields id none none (some limit) (some priority) s in
      (after_update.0 ≡ err (message (lit "priority can only be updated while pending")))
      × (get_job after_update.1 id ≡ some (record job { time_limit_secs = some limit }))
unfolding update_job_fields stages name_stage partition_stage limit_stage priority_stage stage after
update_job_fields-partial id limit priority s job e r =
    rw (e, update_job_fields, open_state, waits_no_more)
      (refl, get_job-update_job id _ s job (λ j. refl) e)
  where
    open_state : is_terminal job.state ≡ false
    open_state = ap is_terminal r

    waits_no_more : is_pending job ≡ false
    waits_no_more = ap (λ st. state_eq st pending) r
