-- ===== src/Daemon/Safety.antt =====
-- Requests, rounds of the main loop and recoveries of src/runtime/daemon.rs, one after another,
-- and the invariant of the jobs table.
use slotd.Prelude.{◌≢◌, Option, none, some, Result, ok, err, diverges, Halts}
use slotd.Job.{JobRecord, running}
use slotd.Store.{Store}
use slotd.Store.Invariant.{
  hold_job-Kept, release_job-Kept, adopt_allocation-Kept, mark_finished-Kept,
}
use slotd.Store.Creations.{create_step-Kept, update_job_fields-Kept}
use slotd.Store.Sound.{IsSound, IsSound-Kept}
use slotd.Runtime.{World, Daemon, recover, forget}
use slotd.Runtime.Keeping.{
  Keeps, bind-Keeps, seq-Keeps, if-Keeps, pure-Keeps, lift-Keeps, read-Keeps, on_runner-Keeps,
  on_store-Keeps, store_call-Keeps,
}
use slotd.Runtime.Kept.{
  enforce_timeouts-Keeps, cancel_job-Keeps, signal_running_job-Keeps, adopt-Keeps, notify_job-Keeps,
}
use slotd.Runtime.KeptPoll.{poll-Keeps, reconcile_adopted-Keeps, recover-Keeps}
use slotd.Runtime.Runs.{Done, Done-kept}
use slotd.Daemon.Schedule.{schedule_pending_jobs}
use slotd.Daemon.AtOnce.{created-Keeps, serve_run-Keeps, serve_alloc-Keeps}
use slotd.Daemon.Rounds.{schedule_pending_jobs-Runs}
use slotd.Daemon.Requests.{
  Request, submit_batch, submit_run, submit_alloc, start_step, adopt_allocation_of,
  finish_allocation, list_queue, list_accounting, list_steps_of, get_job_of, hold, release, cancel,
  update_job_of, signal_job, node_info_of, dispatch_request, adopt_found, after_finish, main_round,
}

Done-Halts :
    {A : Type 0} (F : Store → Type 0) (Q : A → Store → Type 0) (r : Result A) (s : Store)
    → Done F Q r s
    → Halts r
Done-Halts F Q (ok a) s v = tt
Done-Halts F Q (err e) s v = tt
Done-Halts F Q diverges s v = v

-- From a sound table the pass over the waiting jobs returns: with one round more than there are
-- waiting jobs as fuel, it never runs out.
pub schedule_pending_jobs-Halts :
    (w : World) (d : Daemon) → IsSound d.store → Halts (schedule_pending_jobs w d).0
schedule_pending_jobs-Halts w d v =
    Done-Halts IsSound _ _ _ ((schedule_pending_jobs-Runs w).apply d v)

schedule-Keeps : (w : World) → Keeps IsSound (schedule_pending_jobs w)
schedule-Keeps w = record {
  apply = λ d v. Done-kept IsSound _ _ ((schedule_pending_jobs-Runs w).apply d v);
}

-- The pass keeps the table sound.
pub schedule_pending_jobs-IsSound :
    (w : World) (d : Daemon) → IsSound d.store → IsSound (schedule_pending_jobs w d).1.store
schedule_pending_jobs-IsSound w d v = (schedule-Keeps w).apply d v

-- A request that reports no end in the state RUNNING.
unfoldable pub Plausible : Request → Type 0
Plausible (submit_batch request) = Unit
Plausible (submit_run request immediate) = Unit
Plausible (submit_alloc request immediate) = Unit
Plausible (start_step parent_job_id name command cwd user_name) = Unit
Plausible (adopt_allocation_of job_id pid pgid) = Unit
Plausible (finish_allocation job_id outcome) = outcome.state ≢ running
Plausible (list_queue query) = Unit
Plausible (list_accounting query) = Unit
Plausible (list_steps_of parent_job_id) = Unit
Plausible (get_job_of job_id) = Unit
Plausible (hold job_id) = Unit
Plausible (release job_id) = Unit
Plausible (cancel job_id) = Unit
Plausible (update_job_of job_id name partition time_limit_secs priority) = Unit
Plausible (signal_job job_id signal) = Unit
Plausible node_info_of = Unit

module _ (w : World) where
  adopt_found-Keeps : (o : Option JobRecord) → Keeps IsSound (adopt_found w o)
  unfolding adopt_found
  adopt_found-Keeps none = pure-Keeps IsSound _
  adopt_found-Keeps (some j) = adopt-Keeps IsSound IsSound-Kept w j

  after_finish-Keeps : (j : JobRecord) → Keeps IsSound (after_finish w j)
  unfolding after_finish
  after_finish-Keeps j =
      if-Keeps IsSound _ (notify_job-Keeps IsSound IsSound-Kept w j)
        (if-Keeps IsSound _ (schedule-Keeps w) (pure-Keeps IsSound _))

  pub dispatch-Keeps : (r : Request) → Plausible r → Keeps IsSound (dispatch_request w r)
  unfolding dispatch_request forget
  dispatch-Keeps (submit_batch request) q =
      bind-Keeps IsSound (created-Keeps w request)
        λ id. seq-Keeps IsSound (schedule-Keeps w) (pure-Keeps IsSound _)
  dispatch-Keeps (submit_run request immediate) q = serve_run-Keeps w request immediate
  dispatch-Keeps (submit_alloc request immediate) q = serve_alloc-Keeps w request immediate
  dispatch-Keeps (start_step parent_job_id name command cwd user_name) q =
      bind-Keeps IsSound
        (store_call-Keeps IsSound _ (λ s v.
          create_step-Kept IsSound IsSound-Kept parent_job_id name command cwd user_name w.now s v))
        (λ id. pure-Keeps IsSound _)
  dispatch-Keeps (adopt_allocation_of job_id pid pgid) q =
      seq-Keeps IsSound
        (on_store-Keeps IsSound _
          (λ s v. adopt_allocation-Kept IsSound IsSound-Kept job_id pid pgid s v))
        (bind-Keeps IsSound (read-Keeps IsSound _)
          λ found. seq-Keeps IsSound (adopt_found-Keeps found) (pure-Keeps IsSound _))
  dispatch-Keeps (finish_allocation job_id outcome) q =
      seq-Keeps IsSound (on_runner-Keeps IsSound _) (
        bind-Keeps IsSound
          (store_call-Keeps IsSound _ (λ s v.
            mark_finished-Kept IsSound IsSound-Kept job_id outcome w.now s (unfold Plausible in q)
              v))
          (λ ended. seq-Keeps IsSound (after_finish-Keeps ended) (pure-Keeps IsSound _)))
  dispatch-Keeps (list_queue query) q =
      bind-Keeps IsSound (read-Keeps IsSound _) (λ f. pure-Keeps IsSound _)
  dispatch-Keeps (list_accounting query) q =
      bind-Keeps IsSound (read-Keeps IsSound _) (λ f. pure-Keeps IsSound _)
  dispatch-Keeps (list_steps_of parent_job_id) q =
      bind-Keeps IsSound (read-Keeps IsSound _) (λ f. pure-Keeps IsSound _)
  dispatch-Keeps (get_job_of job_id) q =
      bind-Keeps IsSound (read-Keeps IsSound _) (λ f. pure-Keeps IsSound _)
  dispatch-Keeps (hold job_id) q =
      seq-Keeps IsSound
        (on_store-Keeps IsSound _ (λ s v. hold_job-Kept IsSound IsSound-Kept job_id s v))
        (pure-Keeps IsSound _)
  dispatch-Keeps (release job_id) q =
      seq-Keeps IsSound
        (on_store-Keeps IsSound _ (λ s v. release_job-Kept IsSound IsSound-Kept job_id s v))
        (seq-Keeps IsSound (schedule-Keeps w) (pure-Keeps IsSound _))
  dispatch-Keeps (cancel job_id) q =
      bind-Keeps IsSound (cancel_job-Keeps IsSound IsSound-Kept w job_id)
        (λ f. pure-Keeps IsSound _)
  dispatch-Keeps (update_job_of job_id name partition time_limit_secs priority) q =
      seq-Keeps IsSound
        (store_call-Keeps IsSound _ (λ s v.
          update_job_fields-Kept IsSound IsSound-Kept job_id name partition time_limit_secs priority
            s v))
        (seq-Keeps IsSound (schedule-Keeps w) (pure-Keeps IsSound _))
  dispatch-Keeps (signal_job job_id signal) q =
      bind-Keeps IsSound (signal_running_job-Keeps IsSound IsSound-Kept w job_id signal)
        (λ f. pure-Keeps IsSound _)
  dispatch-Keeps node_info_of q =
      bind-Keeps IsSound (read-Keeps IsSound _)
        λ found. bind-Keeps IsSound (lift-Keeps IsSound _) (λ f. pure-Keeps IsSound _)

  main_round-Keeps : Keeps IsSound (main_round w)
  unfolding main_round
  main_round-Keeps = seq-Keeps IsSound (enforce_timeouts-Keeps IsSound IsSound-Kept w) (
      seq-Keeps IsSound (poll-Keeps IsSound IsSound-Kept w)
        (seq-Keeps IsSound (reconcile_adopted-Keeps IsSound IsSound-Kept w) (schedule-Keeps w)))

-- A history of the daemon: requests and rounds, each with its own answers of the world.
pub data History (d : Daemon) : Daemon → Type 0 where
  started_at : History d d
  request_then :
      {e : Daemon} (w : World) (r : Request)
      → Plausible r
      → History d e
      → History d (dispatch_request w r e).1
  round_then : {e : Daemon} (w : World) → History d e → History d (main_round w e).1
  recovery_then : {e : Daemon} (w : World) → History d e → History d (recover w e).1

-- From a daemon whose jobs table is sound, on a machine with fewer than 2 ^ 32 - 1 processors, after
-- any history of requests (none of which reports the end of a job in the state RUNNING), rounds of
-- the main loop and recoveries, whatever the world answers, the table is sound: a row's id names it alone, the
-- running top-level jobs together ask for no more processors, memory and GPUs than the machine
-- has, an exclusive one among them runs alone, and no job has been requeued more than once.
pub History-IsSound : (d e : Daemon) → IsSound d.store → History d e → IsSound e.store
History-IsSound d e v started_at = v
History-IsSound d e v (request_then w r q h) =
    (dispatch-Keeps w r q).apply _ (History-IsSound d _ v h)
History-IsSound d e v (round_then w h) = (main_round-Keeps w).apply _ (History-IsSound d _ v h)
History-IsSound d e v (recovery_then w h) =
    (recover-Keeps IsSound IsSound-Kept w).apply _ (History-IsSound d _ v h)
