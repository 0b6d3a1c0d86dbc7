-- ===== src/Runtime/Control.antt =====
-- src/runtime/runner_control.rs and runner_lifecycle.rs: time limits, warnings, signals and
-- cancellation. The two waits of a termination are the answers `try_wait` and `wait` of the world.
use slotd.Prelude.{
  ℕ, Bool, true, false, ◌&&◌, not, List, [], ◌∷◌, ◌++◌, map, Option, none, some, Text, lit, ◌==◌,
  if◌then◌else◌, ℤ, pos, ◌+ℤ◌, ◌-ℤ◌, leb_ℤ, ltb_ℤ, keep, message, clamp_i64, as_i64,
}
use slotd.Strings.{show_int}
use slotd.Job.{
  JobRecord, JobState, is_terminal, completing, out_of_memory, timeout, cancelled, WarningSignal,
}
use slotd.Store.{Store, get_job, is_running, mark_state, mark_finished, cancel_pending_job, Outcome}
use slotd.Runtime.State.{
  World, RunningJob, RunningJobs, JobHandle, child, adopted, ExitStatus, find_running,
  remove_running, signalled, M, ask, ◌>>=◌, ◌>>◌, pure, fail, read, on_store, store_call, store_run,
  on_runner, get_runner, emit,
}
use slotd.Runtime.Endings.{cgroup_oomed, notify_job}

unfoldable pub deadline_of : ℤ → ℕ → ℤ
deadline_of start limit = clamp_i64 (start +ℤ as_i64 limit)

unfoldable pub past_deadline : ℤ → Option ℤ → Option ℕ → Bool
past_deadline now none limit = false
past_deadline now (some start) none = false
past_deadline now (some start) (some limit) = leb_ℤ (deadline_of start limit) now

unfoldable pub is_timed_out : ℤ → JobRecord → Bool
unfolding past_deadline
is_timed_out now job = past_deadline now job.start_time job.time_limit_secs && is_running job

unfoldable pub timed_out_id : ℤ → Option JobRecord → Bool
timed_out_id now none = false
timed_out_id now (some job) = is_timed_out now job

abbrev ids_of : RunningJobs → List ℕ
ids_of = map (λ r. r.0)

unfoldable pub timed_out_jobs : ℤ → Store → RunningJobs → List ℕ
unfolding keep timed_out_id
timed_out_jobs now s jobs = keep (λ id. timed_out_id now (get_job s id)) (ids_of jobs)

unfoldable pub sent_already : Option RunningJob → Bool
sent_already none = true
sent_already (some running) = running.warning_signal_sent

-- The signal is due from `seconds_before_end` before the deadline until the deadline.
unfoldable pub warning_due : ℤ → JobRecord → Option ℤ → Option ℕ → Option WarningSignal → Option ℤ
warning_due now job (some start) (some limit) (some warning) =
    let deadline = deadline_of start limit in
    let warn_at = clamp_i64 (deadline -ℤ as_i64 warning.seconds_before_end) in
    if leb_ℤ warn_at now && ltb_ℤ now deadline then some warning.signal else none
warning_due now job (some start) (some limit) none = none
warning_due now job (some start) none warning = none
warning_due now job none limit warning = none

unfoldable pub warning_signal_to_send : ℤ → Store → RunningJobs → ℕ → Option ℤ
unfolding warning_due sent_already
warning_signal_to_send now s jobs job_id = elim (get_job s job_id) [
  | none ↦ none
  | some job ↦
      if sent_already (find_running job_id jobs)
      then none
      else warning_due now job job.start_time job.time_limit_secs job.warning_signal
]

unfoldable pub signal_found : World → ℤ → Option RunningJob → M Bool
signal_found w signal none = pure false
signal_found w signal (some running) =
    if w.valid_signal signal
    then (do emit (signalled running.pgid signal); pure true)
    else fail (message (lit "unsupported signal: " ++ show_int signal))

unfoldable pub signal_running_job : World → ℕ → ℤ → M Bool
unfolding signal_found
signal_running_job w job_id signal = do
  jobs ← get_runner
  signal_found w signal (find_running job_id jobs)

abbrev pub sigterm : ℤ
sigterm = pos 15

abbrev pub sigkill : ℤ
sigkill = pos 9

unfoldable pub or_signal : Option ℤ → Option ℤ
or_signal none = some sigkill
or_signal (some s) = some s

-- The exit code and signal of a job that is being terminated, by its handle.
unfoldable pub end_child : World → RunningJob → Option ExitStatus → M (Option ℤ × Option ℤ)
unfolding or_signal
end_child w running (some status) = pure (status.code, status.signal)
end_child w running none = do
  emit (signalled running.pgid sigkill)
  status ← ask (w.wait running.pid)
  pure (status.code, or_signal status.signal)

unfoldable pub kill_group : World → RunningJob → Bool → M (Unit {0})
kill_group w running false = pure tt
kill_group w running true = do
  emit (signalled running.pgid sigkill)
  ask (w.wait_for_group_exit running.pgid)

unfoldable pub end_process : World → RunningJob → JobHandle → M (Option ℤ × Option ℤ)
unfolding end_child kill_group
end_process w running child = do status ← ask (w.try_wait running.pid); end_child w running status
end_process w running adopted = do
  alive ← ask (w.group_alive running.pgid)
  kill_group w running alive
  pure (none, some sigkill)

unfoldable pub finish_and_notify : World → ℕ → Outcome → M (Unit {0})
finish_and_notify w job_id o = do
  job ← store_call (mark_finished job_id o w.now)
  if is_terminal job.state then notify_job w job else pure tt

unfoldable pub terminate_running_job : World → ℕ → RunningJob → JobState → Text → M (Unit {0})
unfolding end_process finish_and_notify
terminate_running_job w job_id running final_state final_reason = do
  on_store (mark_state job_id completing (some final_reason))
  emit (signalled running.pgid sigterm)
  ends ← end_process w running running.handle
  let oomed = cgroup_oomed w running.cgroup_path
  finish_and_notify w job_id (record {
    state = if oomed then out_of_memory else final_state;
    exit_code = ends.0;
    term_signal = ends.1;
    state_reason = some (if oomed then lit "OutOfMemory" else final_reason);
  })

-- The process is dropped from the runner first.
unfoldable pub terminate_found : World → ℕ → JobState → Text → Option RunningJob → M (Unit {0})
unfolding terminate_running_job
terminate_found w job_id final_state final_reason none = pure tt
terminate_found w job_id final_state final_reason (some running) = do
  on_runner (remove_running job_id)
  terminate_running_job w job_id running final_state final_reason

unfoldable pub terminate_tracked_job : World → ℕ → JobState → Text → M (Unit {0})
unfolding terminate_found
terminate_tracked_job w job_id final_state final_reason = do
  jobs ← get_runner
  terminate_found w job_id final_state final_reason (find_running job_id jobs)

unfoldable pub end_all : World → List ℕ → M (Unit {0})
unfolding terminate_tracked_job
end_all w [] = pure tt
end_all w (id ∷ ids) = do terminate_tracked_job w id timeout (lit "TimeLimit"); end_all w ids

unfoldable pub mark_sent : ℕ → RunningJobs → RunningJobs
mark_sent id [] = []
mark_sent id ((i, r) ∷ rs) =
    (i, if i == id then record r { warning_signal_sent = true } else r) ∷ mark_sent id rs

unfoldable pub warn_one : World → ℕ → Option ℤ → M (Unit {0})
unfolding mark_sent
warn_one w id none = pure tt
warn_one w id (some signal) = do sent ← signal_running_job w id signal; on_runner (mark_sent id)

unfoldable pub warn_all : World → List ℕ → M (Unit {0})
unfolding warn_one
warn_all w [] = pure tt
warn_all w (id ∷ ids) = do
  jobs ← get_runner
  due ← read (λ s. warning_signal_to_send w.now s jobs id)
  warn_one w id due
  warn_all w ids

unfoldable pub enforce_timeouts : World → M (Unit {0})
unfolding end_all warn_all keep
enforce_timeouts w = do
  jobs ← get_runner
  late ← read (λ s. timed_out_jobs w.now s jobs)
  end_all w late
  rest ← get_runner
  warn_all w (ids_of (keep (λ r. not r.1.warning_signal_sent) rest))

-- `contains_key` of the runner, then the termination.
unfoldable pub cancel_tracked : World → ℕ → Option RunningJob → M Bool
cancel_tracked w job_id none = pure false
cancel_tracked w job_id (some running) = do
  terminate_tracked_job w job_id cancelled (lit "CancelledByUser")
  pure true

unfoldable pub cancel_unless : World → ℕ → Bool → M Bool
unfolding cancel_tracked
cancel_unless w job_id true = pure true
cancel_unless w job_id false = do
  jobs ← get_runner
  cancel_tracked w job_id (find_running job_id jobs)

unfoldable pub cancel_job : World → ℕ → M Bool
unfolding cancel_unless
cancel_job w job_id = do
  changed ← store_run (cancel_pending_job job_id w.now)
  cancel_unless w job_id changed
