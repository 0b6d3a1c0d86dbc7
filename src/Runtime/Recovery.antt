-- ===== src/Runtime/Recovery.antt =====
-- src/runtime/recovery.rs: what a new daemon does with the jobs that were running.
use slotd.Prelude.{Bool, true, false, List, [], ◌∷◌, Option, none, some, lit, ℤ}
use slotd.Job.{JobRecord, failed}
use slotd.Store.{list_running_jobs, Outcome}
use slotd.Runtime.State.{World, M, ask, ◌>>=◌, ◌>>◌, pure, read}
use slotd.Runtime.Endings.{status_file_code, code_case}
use slotd.Runtime.Runner.{adopt, job_status_path, or_pid}
use slotd.Runtime.Control.{finish_and_notify}

unfoldable pub lost_outcome : World → JobRecord → Outcome
lost_outcome w job =
    let (state, code, reason) = code_case (status_file_code w (job_status_path job)) in
    record { state = state; exit_code = code; term_signal = none; state_reason = some reason }

unfoldable pub recover_group : World → JobRecord → Bool → M (Unit {0})
unfolding lost_outcome
recover_group w job true = adopt job
recover_group w job false = finish_and_notify w job.id (lost_outcome w job)

unfoldable pub recover_job : World → JobRecord → Option ℤ → M (Unit {0})
unfolding recover_group
recover_job w job (some pgid) = do alive ← ask (w.group_alive pgid); recover_group w job alive
recover_job w job none = finish_and_notify w job.id (record {
  state = failed;
  exit_code = none;
  term_signal = none;
  state_reason = some (lit "LostAfterRestart");
})

unfoldable pub recover_each : World → List JobRecord → M (Unit {0})
unfolding recover_job
recover_each w [] = pure tt
recover_each w (job ∷ jobs) = do recover_job w job (or_pid job.pgid job.pid); recover_each w jobs

unfoldable pub recover : World → M (Unit {0})
unfolding recover_each
recover w = do jobs ← read list_running_jobs; recover_each w jobs
