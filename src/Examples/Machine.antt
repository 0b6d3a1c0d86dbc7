-- ===== src/Examples/Machine.antt =====
-- The scheduler and the jobs table at work on the example machine.
use mathlib.Core.List.{Perm}
use slotd.Prelude.{
  ◌≡◌, refl, true, [], ◌∷◌, none, some, ok, pos, arith, lit, Halts, any, length, leb, if◌then◌else◌,
  err, message,
}
use slotd.Strings.{text_eq}
use slotd.Job.{JobRecord, SubmitRequest, failed, running}
use slotd.Runtime.{Daemon}
use slotd.Runtime
use slotd.Config.{is_gpu_partition}
use slotd.Store.{
  Store, new_row, no_array, Outcome, get_job, mark_finished, mark_running, should_auto_requeue,
  any_running_exclusive_job, available_resources, allocate_gpu_ids, gpu_ids_in_use,
  order_pending_jobs, next_pending_jobs, any_running_top_level_job,
}
use slotd.Store.Claims.{claimed}
use slotd.Store.Sound.{IsSound, Room}
use slotd.Store.Gpus.{allocate_gpu_ids-take, free_ids, take}
use slotd.Store.OrderLaws.{order-perm}
use slotd.Store.Steps.{next_step_id-above, StepIds}
use slotd.Store.Fields.{update_job_fields-partial}
use slotd.Daemon.Dependencies.{kind_satisfied-state, Kinds}
use slotd.Store.{update_job_fields, next_step_id, step_row}
use slotd.Prelude.{All, ◌^◌, ◌-◌, ◌<◌, false, none, some, err, true, lit, pos, message}
use slotd.Store.Requeue.{requeued-once, WaitsAgain, IsOver}
use slotd.Daemon.{
  schedule_pending_jobs, dispatch_request, main_round, submit_batch, resources_fit, demand,
  one_round, consider, consider_free, start_if_fit, waiting, note_reason, pending_block_reason,
  dependency_satisfied, array_at_limit,
}
use slotd.Daemon.Stays.{can_start}
use slotd.Daemon.Settled.{schedule_pending_jobs-Settled}
use slotd.Daemon.Safety.{
  started_at, request_then, round_then, Plausible, History-IsSound, schedule_pending_jobs-Halts,
}
use slotd.Daemon.Capacity.{fits-Room}
use slotd.Examples.Data.{machine, world, request, idle, first_daemon}

pub idle-IsSound : IsSound idle
unfolding claimed
idle-IsSound = record {
  cpu_count = omega arith;
  ordered = omega arith;
  cpus = omega arith;
  memory = omega arith;
  gpus = omega arith;
  alone = λ h. omega arith;
  requeued_once = tt;
}

submit-Plausible : Plausible (submit_batch request)
unfolding Plausible
submit-Plausible = tt

History-IsSound_example :
    IsSound
      (main_round world (dispatch_request world (submit_batch request) first_daemon).1).1.store
History-IsSound_example =
    History-IsSound first_daemon _ idle-IsSound
      (round_then world (request_then world (submit_batch request) submit-Plausible started_at))

schedule_pending_jobs-Halts_example : Halts (schedule_pending_jobs world first_daemon).0
schedule_pending_jobs-Halts_example = schedule_pending_jobs-Halts world first_daemon idle-IsSound

abbrev job : JobRecord
job = new_row 1 request no_array (lit "train") (pos 900)

job_fits : resources_fit idle (demand job) ≡ ok true
unfolding resources_fit new_row any_running_exclusive_job available_resources is_gpu_partition any
    text_eq lit
job_fits = refl

fits-Room_example : Room idle job
fits-Room_example = fits-Room idle job idle-IsSound job_fits

abbrev queue : Store
queue = record { jobs = job ∷ []; last_id = 1; config = machine }

abbrev failure : Outcome
failure = record {
  state = failed;
  exit_code = some (pos 1);
  term_signal = none;
  state_reason = none;
}

first_in_queue : get_job queue 1 ≡ some job
unfolding get_job new_row
first_in_queue = refl

job_requeues : should_auto_requeue job failed ≡ true
unfolding should_auto_requeue new_row
job_requeues = refl

requeued-once_example :
    let s1 = (mark_finished 1 failure (pos 1000) queue).1 in
    let s2 = mark_running 1 (pos 7) (pos 7) [] (pos 1100) s1 in
    ((again : JobRecord) × (get_job s1 1 ≡ some again) × WaitsAgain job again)
    × ((over : JobRecord) × (get_job (mark_finished 1 failure (pos 1200) s2).1 1 ≡ some over)
        × ((mark_finished 1 failure (pos 1200) s2).0 ≡ ok over)
        × IsOver job failure (pos 1200) (pos 7) over)
requeued-once_example =
    requeued-once 1 failure failure (pos 1000) (pos 1100) (pos 1200) (pos 7) [] queue job
      first_in_queue job_requeues

abbrev second_job : JobRecord
second_job = new_row 2 request no_array (lit "eval") (pos 800)

order-perm_example : Perm (order_pending_jobs (job ∷ second_job ∷ [])) (job ∷ second_job ∷ [])
order-perm_example = order-perm (job ∷ second_job ∷ [])

allocate_gpu_ids-take_example : allocate_gpu_ids 1 idle ≡ (
    if leb 1 (length (free_ids 2 0 (gpu_ids_in_use none idle)))
    then ok (take 1 (free_ids 2 0 (gpu_ids_in_use none idle)))
    else err (message (lit "not enough free GPU IDs to satisfy the request")))
allocate_gpu_ids-take_example = allocate_gpu_ids-take 1 idle

abbrev busy : JobRecord
busy = record job { state = running; start_time = some (pos 950) }

abbrev working : Store
working = record { jobs = busy ∷ []; last_id = 1; config = machine }

busy_found : get_job working 1 ≡ some busy
unfolding get_job new_row
busy_found = refl

update_job_fields-partial_example :
    let after_update = update_job_fields 1 none none (some 60) (some (pos 5)) working in
    (after_update.0 ≡ err (message (lit "priority can only be updated while pending")))
    × (get_job after_update.1 1 ≡ some (record busy { time_limit_secs = some 60 }))
update_job_fields-partial_example =
    update_job_fields-partial 1 60 (pos 5) working busy busy_found refl

abbrev first_step : JobRecord
first_step = step_row busy 0 (lit "step") (lit "hostname") (lit "/") (lit "ana") (pos 960) 2

few_steps : StepIds (λ n. n < 2 ^ 32 - 1) 1 (first_step ∷ [])
unfolding step_row
few_steps = ((λ h n e. ground arith), tt)

next_step_id-above_example :
    StepIds (λ n. n < next_step_id 1 (first_step ∷ [])) 1 (first_step ∷ [])
    × (next_step_id 1 (first_step ∷ []) < 2 ^ 32)
next_step_id-above_example = next_step_id-above 1 (first_step ∷ []) few_steps

kind_satisfied-state_example : Kinds busy
kind_satisfied-state_example = kind_satisfied-state busy

abbrev too_large : SubmitRequest
too_large = record request { requested_cpus = 9 }

abbrev crowded : Daemon
crowded = record {
  store = record {
    jobs = new_row 1 too_large no_array (lit "train") (pos 900) ∷ [];
    last_id = 1;
    config = machine;
  };
  runner = [];
  effects = [];
}

crowded-IsSound : IsSound crowded.store
unfolding claimed new_row
crowded-IsSound = record {
  cpu_count = omega arith;
  ordered = (omega arith, omega arith);
  cpus = omega arith;
  memory = omega arith;
  gpus = omega arith;
  alone = λ h. omega arith;
  requeued_once = (omega arith, tt);
}

crowded-ends : (schedule_pending_jobs world crowded).0 ≡ ok tt
unfolding schedule_pending_jobs Runtime.◌>>=◌ Runtime.read one_round next_pending_jobs
    order_pending_jobs Runtime.◌>>◌ new_row consider Runtime.lift pending_block_reason
    dependency_satisfied array_at_limit resources_fit any_running_exclusive_job available_resources
    Runtime.pure note_reason Runtime.on_store lit consider_free start_if_fit waiting
    any_running_top_level_job is_gpu_partition any text_eq
crowded-ends = refl

schedule_pending_jobs-Settled_example :
    All
      (λ j. can_start (schedule_pending_jobs world crowded).1.store world.now j ≡ ok false)
      (next_pending_jobs (schedule_pending_jobs world crowded).1.store)
schedule_pending_jobs-Settled_example =
    schedule_pending_jobs-Settled world crowded crowded-IsSound crowded-ends
