-- ===== src/Daemon/Schedule.antt =====
-- `schedule_pending_jobs` of src/runtime/daemon.rs. One call reads the clock once.
use slotd.Prelude.{
  ℕ, zero, suc, Bool, true, false, List, [], ◌∷◌, Option, none, some, Text, lit, if◌then◌else◌,
  keep, length, diverges,
}
use slotd.Job.{JobRecord, pending}
use slotd.Store.{Store, mark_state, mark_allocation_running, next_pending_jobs, waits}
use slotd.Runtime.{World, M, ◌>>=◌, ◌>>◌, pure, lift, read, on_store, launch}
use slotd.Daemon.Fit.{Demand, resources_fit}
use slotd.Daemon.Dependency.{pending_block_reason}

abbrev pub demand : JobRecord → Demand
demand j = record {
  partition = j.partition;
  requested_cpus = j.requested_cpus;
  requested_tasks = j.requested_tasks;
  requested_memory_mb = j.requested_memory_mb;
  requested_gpus = j.requested_gpus;
  exclusive = j.exclusive;
}

unfoldable pub start_job : World → JobRecord → M (Unit {0})
start_job w job =
    if job.allocation_only then on_store (mark_allocation_running job.id w.now) else launch w job

unfoldable pub note_reason : JobRecord → Text → M (Unit {0})
note_reason job reason = on_store (mark_state job.id pending (some reason))

-- One job: was it started?
unfoldable pub start_if_fit : World → JobRecord → Bool → M Bool
unfolding start_job note_reason
start_if_fit w job true = do start_job w job; pure true
start_if_fit w job false = do note_reason job (lit "Resources"); pure false

unfoldable pub consider_free : World → JobRecord → Option Text → M Bool
unfolding start_if_fit
consider_free w job (some reason) = do note_reason job reason; pure false
consider_free w job none = do
  fit ← read (λ s. resources_fit s (demand job))
  fits ← lift fit
  start_if_fit w job fits

unfoldable pub consider : World → JobRecord → M Bool
unfolding consider_free
consider w job = do
  blocked ← read (λ s. pending_block_reason s w.now job)
  reason ← lift blocked
  consider_free w job reason

-- The `for` loop: it stops at the first job that was started.
unfoldable pub one_round : World → List JobRecord → M Bool
one_round w [] = pure false
one_round w (job ∷ jobs) = do
  was_started ← consider w job
  elim was_started [ true ↦ pure true | false ↦ one_round w jobs ]

-- The outer loop, with fuel: a round that starts nothing ends it.
unfoldable pub schedule_rounds : World → ℕ → M (Unit {0})
schedule_rounds w zero = lift diverges
schedule_rounds w (suc fuel) = do
  jobs ← read next_pending_jobs
  was_started ← one_round w jobs
  elim was_started [ true ↦ schedule_rounds w fuel | false ↦ pure tt ]

-- Each round but the last starts a waiting job, so their number and one is fuel enough.
unfoldable pub waiting : Store → ℕ
unfolding keep
waiting s = length (keep waits s.jobs)

unfoldable pub schedule_pending_jobs : World → M (Unit {0})
unfolding schedule_rounds
schedule_pending_jobs w = do n ← read waiting; schedule_rounds w (suc n)
