-- ===== src/Examples/Sessions.antt =====
-- Sessions of commands with the daemon of the example machine.
use slotd.Prelude.{
  inl, ◌++◌, any, true, false, List, [], ◌∷◌, none, some, lit, Text, ℕ, pos, refuses, message, ok,
  ◌≡◌, refl, arith, ◌<◌, zero, suc, Result,
}
use slotd.Config.{is_gpu_partition}
use slotd.Runtime.{World}
use slotd.Command.Arguments.{SbatchArgs}
use slotd.Command.Client.{Client, run, done}
use slotd.Command.Session.{handle_stream}
use slotd.Command.Sbatch.{Host, BatchSource, build_sbatch_request}
use slotd.Command.Acting.{ActsOn, run_scancel-ActsOn}
use slotd.Command.Completing.{outcome, run_sbatch-outcome}
use slotd.Util.Signals.{parse_signal_name}
use slotd.Strings.{show_nat}
use slotd.Submit.Directives.{no_directives}
use slotd.Command.Building.{IsAsked, build_sbatch_request-IsAsked}
use slotd.Job.{SubmitRequest, truncate, JobRecord, running, failed, is_terminal}
use slotd.Command.Allocation.{run_sbatch}
use slotd.Store.{new_row, no_array, get_job}
use slotd.Runtime.{Daemon}
use slotd.Runtime
use slotd.Runtime.SlurmEnv.{apply_slurm_env}
use slotd.Daemon.{job, dispatch_request, get_job_of, submitted, Request, Response}
use slotd.Command.Allocation.{current_allocation_job}
use slotd.Command.Nesting.{RunsIn, current_allocation_job-apply_slurm_env}
use slotd.Examples.Data.{machine, request, idle, world, first_daemon}

abbrev silent_text : {A : Type 0} → A → Text
silent_text a = []

abbrev same_world : ℕ → World
same_world n = world

term_known : parse_signal_name (lit "TERM") ≡ ok (pos 15)
unfolding parse_signal_name lit
term_known = refl

run_scancel-ActsOn_example :
    ActsOn silent_text silent_text same_world machine 7 (lit "TERM") (pos 15) [] 0 first_daemon
run_scancel-ActsOn_example =
    run_scancel-ActsOn silent_text silent_text same_world machine 7 (lit "TERM") (pos 15) [] 0
      first_daemon (omega arith) term_known

abbrev host : Host
host = record {
  vars = (lit "USER", lit "ana") ∷ [];
  current_dir = lit "/home/ana";
  now = pos 0;
  read_file = λ path. refuses (message (lit "not found"));
  file_name = λ path. some path;
}

abbrev sbatch_args : SbatchArgs
sbatch_args = record {
  script = none;
  wrap = some (lit "sleep 5");
  resources = record {
    job_name = none;
    partition = none;
    cpus_per_task = some 2;
    ntasks = none;
    mem = none;
    time = none;
    gpus = none;
    chdir = none;
    constraint = none;
  };
  output = none;
  error = none;
  export = none;
  export_file = none;
  open_mode = none;
  signal = none;
  begin = none;
  exclusive = false;
  requeue = false;
  dependency = none;
  array = none;
  parsable = true;
  wait = true;
}

abbrev nothing_runs : JobRecord → List Text → Client (List Text)
nothing_runs found command = done []

abbrev allocation : JobRecord
allocation =
    record (new_row 7 (record request { allocation_only = true }) no_array (lit "salloc")
      (pos 900)) { state = running }

abbrev serving : Daemon
serving = record {
  store = record idle { jobs = allocation ∷ []; last_id = 7 };
  runner = [];
  effects = [];
}

abbrev inner_step : JobRecord
inner_step = record allocation {
  id = 8;
  parent_job_id = some 7;
  step_id = some 0;
  allocation_only = false;
}

abbrev inner_host : Host
inner_host = record host { vars = apply_slurm_env machine inner_step [] }

found_allocation :
    handle_stream silent_text same_world (0, serving) (get_job_of allocation.id)
    ≡ (ok (job (some allocation)), (1, serving))
unfolding handle_stream dispatch_request get_job Runtime.◌>>=◌ Runtime.read Runtime.pure new_row
found_allocation = refl

inside_allocation : RunsIn inner_step allocation
unfolding new_row
inside_allocation = inl refl

current_allocation_job-apply_slurm_env_example :
    run
      (handle_stream silent_text same_world)
      (current_allocation_job silent_text 2 inner_host machine nothing_runs nothing_runs)
      (0, serving)
    ≡ (ok (some allocation), (1, serving))
unfolding new_row
current_allocation_job-apply_slurm_env_example =
    current_allocation_job-apply_slurm_env silent_text 2 inner_host machine nothing_runs
      nothing_runs inner_step allocation [] (handle_stream silent_text same_world) (0, serving)
      (1, serving) inside_allocation (omega arith) refl found_allocation refl

abbrev sent : SubmitRequest
sent = record {
  name = none;
  user_name = lit "ana";
  partition = lit "cpu";
  cwd = lit "/home/ana";
  script_name = lit "wrap";
  script_body = lit "#!/usr/bin/env bash" ++ 10 ∷ lit "sleep 5" ++ 10 ∷ [];
  command_override = some (lit "sleep 5");
  requested_cpus = 2;
  requested_tasks = 1;
  requested_memory_mb = 512;
  requested_gpus = 0;
  allocation_only = false;
  dependency = none;
  array_spec = none;
  time_limit_secs = none;
  begin_time = none;
  exclusive = false;
  stdout_path = none;
  stderr_path = none;
  constraint = none;
  cpu_bind = none;
  export_env = [];
  open_mode = truncate;
  warning_signal = none;
  requeue = false;
}

request_built : build_sbatch_request host machine sbatch_args ≡ ok sent
unfolding build_sbatch_request any is_gpu_partition
request_built = refl

build_sbatch_request-IsAsked_example : IsAsked machine sbatch_args sent
build_sbatch_request-IsAsked_example =
    build_sbatch_request-IsAsked host machine sbatch_args sent request_built

abbrev queued : JobRecord
queued = new_row 7 sent no_array (lit "wrap") (pos 900)

abbrev rows : ℕ → JobRecord
rows zero = queued
rows (suc k) = record queued { state = failed; exit_code = some (pos 3) }

abbrev desk : ℕ → Request → Result Response × ℕ
desk zero asked = (ok (submitted 7), 1)
desk (suc k) asked = (ok (job (some (rows k))), suc (suc k))

first_waits : (i : ℕ) → i < 1 → is_terminal (rows i).state ≡ false
unfolding new_row
first_waits zero h = refl
first_waits (suc i) h = absurd (omega (arith, h))

run_sbatch-outcome_example :
    run desk (run_sbatch silent_text 2 host machine nothing_runs nothing_runs sbatch_args) 0
    ≡ (outcome (rows 1) (show_nat 7 ∷ []), 3)
unfolding new_row
run_sbatch-outcome_example =
    run_sbatch-outcome silent_text desk 0 (λ k. suc k) rows 7 host machine nothing_runs nothing_runs
      sbatch_args sent 1 2 request_built refl refl (λ k. refl) (omega arith) first_waits refl refl

abbrev tuned_host : Host
tuned_host = record host { vars = (lit "SBATCH_OUTPUT", lit "log") ∷ (lit "USER", lit "ana") ∷ [] }

abbrev tuned_sent : SubmitRequest
tuned_sent = record sent { stdout_path = some (lit "log") }

abbrev wrap_source : BatchSource
unfolding no_directives
wrap_source = record {
  script_name = lit "wrap";
  script_body = lit "#!/usr/bin/env bash" ++ 10 ∷ lit "sleep 5" ++ 10 ∷ [];
  directives = no_directives;
  command_override = some (lit "sleep 5");
}
