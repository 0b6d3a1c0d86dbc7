-- ===== src/Store/Requeue.antt =====
-- `mark_finished` of src/store/state_updates.rs, over two ends of one job.
use slotd.Prelude.{
  ℕ, ◌≡◌, refl, ap, ◌∙◌, true, false, List, none, some, ℤ, ◌==◌, ok, arith, lit, [], ◌∷◌, Option,
  Text, ◌+◌,
}
use slotd.Strings.{is_empty}
use slotd.Job.{JobRecord, running, pending, unwrap_or}
use slotd.Store.Table.{Store, update_job, get_job, has_id, reason_column}
use slotd.Store.Updates.{
  mark_finished, finished_job, end_row, requeue_row, finish_row, should_auto_requeue, Outcome,
  mark_running,
}
use slotd.Store.Ids.{find_job_sound}
use slotd.Store.Current.{find-update}

-- What a statement on one row leaves to be read there.
pub get_job-update_job :
    (id : ℕ) (f : JobRecord → JobRecord) (s : Store) (job : JobRecord)
    → ((j : JobRecord) → (f j).id ≡ j.id)
    → get_job s id ≡ some job
    → get_job (update_job id f s) id ≡ some (f job)
unfolding get_job update_job
get_job-update_job id f s job same e =
    find-update id id f s.jobs job same e ∙ rw (find_job_sound (has_id id) s.jobs job e) refl

end_row-id : (o : Outcome) (now : ℤ) (job j : JobRecord) → (end_row o now job j).id ≡ j.id
unfolding end_row
end_row-id o now job j = ground arith

-- The end of a job whose row is there is answered by that row as it was written.
pub mark_finished-found :
    (id : ℕ) (o : Outcome) (now : ℤ) (s : Store) (job : JobRecord)
    → get_job s id ≡ some job
    → (mark_finished id o now s).0 ≡ ok (end_row o now job job)
unfolding mark_finished finished_job
mark_finished-found id o now s job e =
    rw (e, mark_finished, get_job-update_job id (end_row o now job) s job (end_row-id o now job) e)
      refl

mark_finished-store :
    (id : ℕ) (o : Outcome) (now : ℤ) (s : Store) (job : JobRecord)
    → get_job s id ≡ some job
    → get_job (mark_finished id o now s).1 id ≡ some (end_row o now job job)
unfolding mark_finished finished_job
mark_finished-store id o now s job e =
    rw (e, mark_finished) (get_job-update_job id (end_row o now job) s job (end_row-id o now job) e)

requeues :
    (o : Outcome) (now : ℤ) (job : JobRecord)
    → should_auto_requeue job o.state ≡ true
    → end_row o now job job ≡ requeue_row job
unfolding end_row
requeues o now job h = rw h refl

not_again :
    (o : Outcome) (now : ℤ) (j : JobRecord)
    → (j.requeue_count == 0) ≡ false
    → should_auto_requeue j o.state ≡ false
unfolding should_auto_requeue
not_again o now j h = ground arith

ends :
    (o : Outcome) (now : ℤ) (job : JobRecord)
    → should_auto_requeue job o.state ≡ false
    → end_row o now job job ≡ finish_row o.state o.exit_code o.term_signal o.state_reason now job
unfolding end_row
ends o now job h = rw h refl

requeued_count : (job : JobRecord) → ((requeue_row job).requeue_count == 0) ≡ false
unfolding requeue_row
requeued_count job = ground arith

-- The row waits again: no process, no times, no result, no GPUs, and one requeue more.
pub record WaitsAgain (before after : JobRecord) : Type 0 where
  waits : after.state ≡ pending
  reason : after.state_reason ≡ some (lit "Requeued")
  no_process : (after.pid ≡ none) × (after.pgid ≡ none)
  no_times : (after.start_time ≡ none) × (after.end_time ≡ none)
  no_result : (after.exit_code ≡ none) × (after.term_signal ≡ none) × (after.max_rss_kb ≡ none)
  no_gpus : after.assigned_gpu_ids ≡ []
  counted : after.requeue_count ≡ before.requeue_count + 1

-- A reason without text is no reason.
reported : Option Text → Option Text
reported none = none
reported (some []) = none
reported (some (c ∷ s)) = some (c ∷ s)

-- The row is over as the outcome says, with the process it had.
pub record IsOver (before : JobRecord) (o : Outcome) (now pid : ℤ) (after : JobRecord)
    : Type 0 where
  state : after.state ≡ o.state
  exit_code : after.exit_code ≡ o.exit_code
  term_signal : after.term_signal ≡ o.term_signal
  reason : after.state_reason ≡ reported o.state_reason
  ended : after.end_time ≡ some now
  process : after.pid ≡ some pid
  no_gpus : after.assigned_gpu_ids ≡ []
  counted : after.requeue_count ≡ before.requeue_count + 1

column : (o : Option Text) → reason_column (unwrap_or [] o) ≡ reported o
unfolding reason_column reported is_empty
column none = refl
column (some []) = refl
column (some (c ∷ s)) = refl

requeue_row-WaitsAgain : (job : JobRecord) → WaitsAgain job (requeue_row job)
unfolding requeue_row
requeue_row-WaitsAgain job = record {
  waits = refl;
  reason = refl;
  no_process = (refl, refl);
  no_times = (refl, refl);
  no_result = (refl, refl, refl);
  no_gpus = refl;
  counted = refl;
}

restarted : JobRecord → ℤ → ℤ → List ℕ → JobRecord
unfolding requeue_row
restarted job later pid gpus = record (requeue_row job) {
  state = running;
  state_reason = none;
  pid = some pid;
  pgid = some pid;
  start_time = some later;
  assigned_gpu_ids = gpus;
}

finish_row-IsOver :
    (job : JobRecord) (o : Outcome) (later last pid : ℤ) (gpus : List ℕ)
    → IsOver job o last pid (
        finish_row o.state o.exit_code o.term_signal o.state_reason last
          (restarted job later pid gpus))
unfolding finish_row restarted requeue_row
finish_row-IsOver job o later last pid gpus = record {
  state = refl;
  exit_code = refl;
  term_signal = refl;
  reason = column o.state_reason;
  ended = refl;
  process = refl;
  no_gpus = refl;
  counted = refl;
}

-- A job that the rule for requeueing picks ends, is started again, and ends a second time. After the
-- first end its row waits again, without its process, its times, its result and its GPUs, and with one
-- requeue more; after the second end the table has, and `mark_finished` returns, a row with the reported
-- state, exit code, signal and reason, whatever these are, and with no further requeue.
pub requeued-once :
    (id : ℕ) (o o' : Outcome) (now later last pid : ℤ) (gpus : List ℕ) (s : Store) (job : JobRecord)
    → get_job s id ≡ some job
    → should_auto_requeue job o.state ≡ true
    → let s1 = (mark_finished id o now s).1 in
      let s2 = mark_running id pid pid gpus later s1 in
      ((again : JobRecord) × (get_job s1 id ≡ some again) × WaitsAgain job again)
      × ((over : JobRecord) × (get_job (mark_finished id o' last s2).1 id ≡ some over)
          × ((mark_finished id o' last s2).0 ≡ ok over)
          × IsOver job o' last pid over)
unfolding mark_running restarted
requeued-once id o o' now later last pid gpus s job e h =
    let s1 = (mark_finished id o now s).1 in
    let first : get_job s1 id ≡ some (requeue_row job) =
      mark_finished-store id o now s job e ∙ ap some (requeues o now job h) in
    let second : get_job (mark_running id pid pid gpus later s1) id
        ≡ some (restarted job later pid gpus) =
      get_job-update_job id _ _ _ (λ j. refl) first in
    let ending =
      ends o' last (restarted job later pid gpus) (not_again o' last _ (requeued_count job)) in
    (
      (requeue_row job, first, requeue_row-WaitsAgain job),
      (
        _,
        mark_finished-store id o' last _ _ second ∙ ap some ending,
        mark_finished-found id o' last _ _ second ∙ ap ok ending,
        finish_row-IsOver job o' later last pid gpus,
      ),
    )
