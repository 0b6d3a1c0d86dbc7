-- ===== src/Store/Control.antt =====
-- src/store/control_updates.rs.
use slotd.Prelude.{
  ℕ, Bool, true, false, not, ◌++◌, Option, none, some, Text, lit, if◌then◌else◌, ℤ, Result, ok, err,
  diverges, message,
}
use slotd.Strings.{show_nat}
use slotd.Job.{JobRecord, is_terminal}
use slotd.Store.Table.{Store, update_job, update_rows, get_job, is_pending}
use slotd.Store.Updates.{cancellable}

unfoldable pub hold_job : ℕ → Store → Store
unfolding cancellable
hold_job job_id s = record s {
  jobs =
      update_rows (cancellable job_id)
        (λ j. record j { held = true; state_reason = some (lit "JobHeldUser") }) s.jobs;
}

unfoldable pub release_job : ℕ → Store → Store
unfolding cancellable
release_job job_id s = record s {
  jobs =
      update_rows (cancellable job_id)
        (λ j. record j { held = false; state_reason = some (lit "Resources") }) s.jobs;
}

-- One `if let Some(value) = … { … }` of `update_job_fields`: the earlier statements stand when a
-- later one is refused.
abbrev pub Stage : Type 0
Stage = Store → Result (Unit {0}) × Store

unfoldable pub stage {ℓ} :
    {A : Type ℓ} → Option A → (refused : Bool) → Text → (A → Store → Store) → Stage
stage none refused why write s = (ok tt, s)
stage (some value) refused why write s =
    if refused then (err (message why), s) else (ok tt, write value s)

unfoldable pub after : Result (Unit {0}) × Store → Stage → Result (Unit {0}) × Store
after (ok _, s) next = next s
after (err e, s) next = (err e, s)
after (diverges, s) next = (diverges, s)

module _ (job : JobRecord) (job_id : ℕ) where
  unfoldable pub name_stage : Option Text → Stage
  unfolding stage
  name_stage name =
      stage name (not (is_pending job)) (lit "job name can only be updated while pending")
        (λ value. update_job job_id λ j. record j { name = value })

  unfoldable pub partition_stage : Option Text → Stage
  unfolding stage cancellable
  partition_stage partition =
      stage partition (not (is_pending job)) (lit "partition can only be updated while pending")
        λ value s. record s {
          jobs = update_rows (cancellable job_id) (λ j. record j { partition = value }) s.jobs;
        }

  unfoldable pub limit_stage : Option ℕ → Stage
  unfolding stage
  limit_stage time_limit_secs =
      stage time_limit_secs (is_terminal job.state)
        (lit "time limit cannot be updated after the job has finished")
        (λ value. update_job job_id λ j. record j { time_limit_secs = some value })

  unfoldable pub priority_stage : Option ℤ → Stage
  unfolding stage
  priority_stage priority =
      stage priority (not (is_pending job)) (lit "priority can only be updated while pending")
        (λ value. update_job job_id λ j. record j { priority = value })

  unfoldable pub stages : Option Text → Option Text → Option ℕ → Option ℤ → Stage
  unfolding name_stage partition_stage limit_stage priority_stage after
  stages name partition time_limit_secs priority s =
      after
        (after (after (name_stage name s) (partition_stage partition))
          (limit_stage time_limit_secs))
        (priority_stage priority)

unfoldable pub update_job_fields : ℕ → Option Text → Option Text → Option ℕ → Option ℤ → Stage
unfolding stages
update_job_fields job_id name partition time_limit_secs priority s = elim (get_job s job_id) [
  | none ↦ (err (message (lit "job " ++ (show_nat job_id ++ lit " not found"))), s)
  | some job ↦ stages job job_id name partition time_limit_secs priority s
]
