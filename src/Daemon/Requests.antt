-- ===== src/Daemon/Requests.antt =====
-- `Request` and `Response` of src/proto/ipc.rs, and `dispatch_request`, `submit_run`,
-- `submit_alloc` and the main loop of src/runtime/daemon.rs.
use slotd.Prelude.{
  ℕ, Bool, true, false, List, ◌++◌, Option, none, some, Text, lit, if◌then◌else◌, ℤ,
}
use slotd.Strings.{show_nat}
use slotd.Job.{JobRecord, SubmitRequest, NodeInfo, is_terminal, state_eq, pending}
use slotd.Store.{
  Query, create_job, create_step, adopt_allocation, mark_finished, get_job, list_jobs,
  list_accounting_jobs, list_steps, hold_job, release_job, update_job_fields, node_info,
  mark_allocation_running, Outcome,
}
use slotd.Runtime.{
  World, M, ◌>>=◌, ◌>>◌, pure, lift, read, on_store, store_call, launch, adopt, forget, cancel_job,
  signal_running_job, notify_job, enforce_timeouts, poll, reconcile_adopted,
}
use slotd.Daemon.Fit.{Demand, resources_fit}
use slotd.Daemon.Schedule.{schedule_pending_jobs}

pub data Request : Type 0 where
  submit_batch : SubmitRequest → Request
  submit_run submit_alloc : (request : SubmitRequest) → (immediate : Bool) → Request
  start_step : (parent_job_id : ℕ) → (name command cwd user_name : Text) → Request
  adopt_allocation_of : (job_id : ℕ) → (pid pgid : ℤ) → Request
  finish_allocation : (job_id : ℕ) → Outcome → Request
  list_queue list_accounting : Query → Request
  list_steps_of : (parent_job_id : ℕ) → Request
  get_job_of : (job_id : ℕ) → Request
  hold release cancel : (job_id : ℕ) → Request
  update_job_of : (job_id : ℕ) → Option Text → Option Text → Option ℕ → Option ℤ → Request
  signal_job : (job_id : ℕ) → (signal : ℤ) → Request
  node_info_of : Request

pub data Response : Type 0 where
  submitted : (job_id : ℕ) → Response
  jobs : List JobRecord → Response
  job : Option JobRecord → Response
  was_cancelled : (job_id : ℕ) → Response
  node : NodeInfo → Response
  error : Text → Response

abbrev pub request_demand : SubmitRequest → Demand
request_demand r = record {
  partition = r.partition;
  requested_cpus = r.requested_cpus;
  requested_tasks = r.requested_tasks;
  requested_memory_mb = r.requested_memory_mb;
  requested_gpus = r.requested_gpus;
  exclusive = r.exclusive;
}

module _ (w : World) where
  unfoldable pub created : SubmitRequest → M ℕ
  created request = store_call (create_job w.write_files w.now request)

  unfoldable pub launch_found : Option JobRecord → M (Unit {0})
  launch_found none = pure tt
  launch_found (some found) = launch w found

  -- Launches the job just created if its demand fitted before.
  unfoldable pub launch_now : Bool → ℕ → M (Unit {0})
  unfolding launch_found
  launch_now false job_id = pure tt
  launch_now true job_id = do found ← read (λ s. get_job s job_id); launch_found found

  unfoldable pub run_if : SubmitRequest → Bool → Bool → M Response
  unfolding created launch_now
  run_if request true false =
      pure (error (lit "resources are not currently available for --immediate srun"))
  run_if request immediate can_start_now = do
    job_id ← created request
    launch_now can_start_now job_id
    pure (submitted job_id)

  unfoldable pub serve_run : SubmitRequest → Bool → M Response
  unfolding run_if
  serve_run request immediate = do
    fit ← read (λ s. resources_fit s (request_demand request))
    can_start_now ← lift fit
    run_if request immediate can_start_now

  unfoldable pub mark_now : Bool → ℕ → M (Unit {0})
  mark_now false job_id = pure tt
  mark_now true job_id = on_store (mark_allocation_running job_id w.now)

  unfoldable pub alloc_if : SubmitRequest → Bool → Bool → M Response
  unfolding created mark_now
  alloc_if request true false =
      pure (error (lit "resources are not currently available for --immediate salloc"))
  alloc_if request immediate can_start_now = do
    job_id ← created request
    mark_now can_start_now job_id
    pure (submitted job_id)

  unfoldable pub serve_alloc : SubmitRequest → Bool → M Response
  unfolding alloc_if
  serve_alloc request immediate = do
    fit ← read (λ s. resources_fit s (request_demand request))
    can_start_now ← lift fit
    alloc_if request immediate can_start_now

  unfoldable pub adopt_found : Option JobRecord → M (Unit {0})
  adopt_found none = pure tt
  adopt_found (some found) = adopt found

  unfoldable pub after_finish : JobRecord → M (Unit {0})
  after_finish ended =
      if is_terminal ended.state
      then notify_job w ended
      else if state_eq ended.state pending
      then schedule_pending_jobs w
      else pure tt

  unfoldable pub cancel_response : ℕ → Bool → Response
  cancel_response job_id true = was_cancelled job_id
  cancel_response job_id false =
      error (lit "job " ++ (show_nat job_id ++ lit " was not found or already finished"))

  unfoldable pub signal_response : ℕ → Bool → Response
  signal_response job_id true = submitted job_id
  signal_response job_id false =
      error (lit "job " ++ (show_nat job_id ++ lit " is not currently running"))

  unfoldable pub dispatch_request : Request → M Response
  unfolding created adopt_found after_finish cancel_response signal_response
  dispatch_request (submit_batch request) = do
    job_id ← created request
    schedule_pending_jobs w
    pure (submitted job_id)
  dispatch_request (submit_run request immediate) = serve_run request immediate
  dispatch_request (submit_alloc request immediate) = serve_alloc request immediate
  dispatch_request (start_step parent_job_id name command cwd user_name) = do
    job_id ← store_call (create_step parent_job_id name command cwd user_name w.now)
    pure (submitted job_id)
  dispatch_request (adopt_allocation_of job_id pid pgid) = do
    on_store (adopt_allocation job_id pid pgid)
    found ← read (λ s. get_job s job_id)
    adopt_found found
    pure (submitted job_id)
  dispatch_request (finish_allocation job_id outcome) = do
    forget job_id
    ended ← store_call (mark_finished job_id outcome w.now)
    after_finish ended
    pure (submitted job_id)
  dispatch_request (list_queue query) = do found ← read (λ s. list_jobs s query); pure (jobs found)
  dispatch_request (list_accounting query) = do
    found ← read (λ s. list_accounting_jobs s query)
    pure (jobs found)
  dispatch_request (list_steps_of parent_job_id) = do
    found ← read (λ s. list_steps s parent_job_id)
    pure (jobs found)
  dispatch_request (get_job_of job_id) = do found ← read (λ s. get_job s job_id); pure (job found)
  dispatch_request (hold job_id) = do on_store (hold_job job_id); pure (submitted job_id)
  dispatch_request (release job_id) = do
    on_store (release_job job_id)
    schedule_pending_jobs w
    pure (submitted job_id)
  dispatch_request (update_job_of job_id name partition time_limit_secs priority) = do
    store_call (update_job_fields job_id name partition time_limit_secs priority)
    schedule_pending_jobs w
    pure (submitted job_id)
  dispatch_request (cancel job_id) = do
    done ← cancel_job w job_id
    pure (cancel_response job_id done)
  dispatch_request (signal_job job_id signal) = do
    sent ← signal_running_job w job_id signal
    pure (signal_response job_id sent)
  dispatch_request node_info_of = do found ← read node_info; info ← lift found; pure (node info)

  -- One round of the main loop, after the requests.
  unfoldable pub main_round : M (Unit {0})
  main_round = do enforce_timeouts w; poll w; reconcile_adopted w; schedule_pending_jobs w
