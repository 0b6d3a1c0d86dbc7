-- ===== src/Store/Updates.antt =====
-- src/store/state_updates.rs, and `should_auto_requeue` of src/store/mod.rs. The time that a
-- statement writes is the argument `now`.
use slotd.Prelude.{
  ℕ, ◌+◌, Bool, ◌&&◌, ◌||◌, List, [], ◌++◌, Option, none, some, Text, lit, ltb, ◌==◌, if◌then◌else◌,
  ℤ, keep, length, Result, err, message, ok_or,
}
use slotd.Strings.{show_nat}
use slotd.Job.{
  JobRecord, JobState, state_eq, running, pending, failed, timeout, out_of_memory, cancelled,
  unwrap_or,
}
use slotd.Store.Table.{
  Store, update_job, update_rows, get_job, reason_column, is_none, is_pending, has_id,
}

unfoldable pub mark_running : ℕ → ℤ → ℤ → List ℕ → ℤ → Store → Store
mark_running job_id pid pgid assigned_gpu_ids now = update_job job_id λ j. record j {
  state = running;
  state_reason = none;
  pid = some pid;
  pgid = some pgid;
  start_time = some now;
  assigned_gpu_ids = assigned_gpu_ids;
}

unfoldable pub mark_allocation_running : ℕ → ℤ → Store → Store
mark_allocation_running job_id now =
    update_job job_id λ j. record j { state = running; state_reason = none; start_time = some now }

unfoldable pub adopt_allocation : ℕ → ℤ → ℤ → Store → Store
adopt_allocation job_id pid pgid =
    update_job job_id λ j. record j { pid = some pid; pgid = some pgid }

unfoldable pub should_auto_requeue : JobRecord → JobState → Bool
should_auto_requeue job final_state =
    is_none job.parent_job_id
    && job.requeue
    && job.requeue_count == 0
    && (state_eq final_state failed
        || state_eq final_state timeout
        || state_eq final_state out_of_memory)

-- The two statements of `mark_finished`.
unfoldable pub requeue_row : JobRecord → JobRecord
requeue_row j = record j {
  state = pending;
  exit_code = none;
  term_signal = none;
  state_reason = some (lit "Requeued");
  start_time = none;
  end_time = none;
  pid = none;
  pgid = none;
  assigned_gpu_ids = [];
  max_rss_kb = none;
  requeue_count = j.requeue_count + 1;
}

unfoldable pub finish_row : JobState → Option ℤ → Option ℤ → Option Text → ℤ → JobRecord → JobRecord
finish_row state exit_code term_signal reason now j = record j {
  state = state;
  exit_code = exit_code;
  term_signal = term_signal;
  state_reason = reason_column (unwrap_or [] reason);
  end_time = some now;
  assigned_gpu_ids = [];
}

-- What an outcome says of the job that ended.
pub record Outcome : Type 0 where
  pub state : JobState
  pub exit_code : Option ℤ
  pub term_signal : Option ℤ
  pub state_reason : Option Text

unfoldable pub end_row : Outcome → ℤ → JobRecord → JobRecord → JobRecord
unfolding requeue_row finish_row
end_row o now job =
    if should_auto_requeue job o.state
    then requeue_row
    else finish_row o.state o.exit_code o.term_signal o.state_reason now

unfoldable pub finished_job : ℕ → Outcome → ℤ → Store → JobRecord → Result JobRecord × Store
unfolding end_row
finished_job job_id o now s job =
    let s' = update_job job_id (end_row o now job) s in
    (
      ok_or (get_job s' job_id)
          (message (lit "job " ++ (show_nat job_id ++ lit " not found after update"))),
      s',
    )

unfoldable pub mark_finished : ℕ → Outcome → ℤ → Store → Result JobRecord × Store
unfolding finished_job
mark_finished job_id o now s = elim (get_job s job_id) [
  | none ↦ (err (message (lit "job " ++ (show_nat job_id ++ lit " not found"))), s)
  | some job ↦ finished_job job_id o now s job
]

unfoldable pub mark_state : ℕ → JobState → Option Text → Store → Store
mark_state job_id state reason =
    update_job job_id
      λ j. record j { state = state; state_reason = reason_column (unwrap_or [] reason) }

unfoldable pub raised : Option ℕ → ℕ → Option ℕ
raised none n = some n
raised (some m) n = if ltb m n then some n else some m

unfoldable pub update_max_rss : ℕ → ℕ → Store → Store
unfolding raised
update_max_rss job_id max_rss_kb =
    update_job job_id λ j. record j { max_rss_kb = raised j.max_rss_kb max_rss_kb }

-- `WHERE id = ? AND state = 'PENDING'`, and whether a row changed.
unfoldable pub cancellable : ℕ → JobRecord → Bool
cancellable job_id j = has_id job_id j && is_pending j

unfoldable pub cancel_pending_job : ℕ → ℤ → Store → Bool × Store
unfolding cancellable
cancel_pending_job job_id now s = (
  ltb 0 (length (keep (cancellable job_id) s.jobs)),
  record s {
    jobs =
        update_rows (cancellable job_id)
          (λ j. record j {
            state = cancelled;
            state_reason = some (lit "CancelledByUser");
            end_time = some now;
          })
          s.jobs;
  },
)
