-- ===== src/Command/Allocation.antt =====
-- src/command/submit: the requests of `sbatch`, `salloc` and `srun`. What runs in the foreground, once
-- the allocation is there, is an argument.
use slotd.Prelude.{
  ℕ, Bool, true, false, ◌&&◌, ◌||◌, List, [], ◌∷◌, ◌++◌, Option, none, some, Text, lit,
  if◌then◌else◌, ℤ, pos, negsuc,
}
use slotd.Strings.{show_nat, text_eq, parse_i64}
use slotd.Config.{AppConfig}
use slotd.Job.{JobRecord, SubmitRequest, truncate, state_eq, running, unwrap_or}
use slotd.Submit.Directives.{or_else}
use slotd.Daemon.{
  Response, submit_batch, submit_alloc, submit_run, get_job_of, submitted, job, error,
}
use slotd.Util.Env.{env_value}
use slotd.Command.Client.{Client, done, refuse, from_result, asking, chain}
use slotd.Command.Arguments.{SbatchArgs, SallocArgs, SrunArgs, ResolvedResourceArgs, resolve}
use slotd.Command.Wait.{wait_for_submission_completion, wait_for_job_running}
use slotd.Command.Quoting.{shell_join}
use slotd.Command.Sbatch.{Host, current_user_name, build_sbatch_request}

-- A request for resources, without a script of its own.
abbrev plain_request :
    Host
    → ResolvedResourceArgs
    → (name script_name script_body command : Text) → (allocation_only : Bool) → SubmitRequest
plain_request host resolved name script_name script_body command allocation_only = record {
  name = or_else resolved.job_name (some name);
  user_name = current_user_name host;
  partition = resolved.partition;
  cwd = resolved.cwd;
  script_name = script_name;
  script_body = script_body;
  command_override = some command;
  requested_cpus = resolved.requested_cpus;
  requested_tasks = resolved.requested_tasks;
  requested_memory_mb = resolved.requested_memory_mb;
  requested_gpus = resolved.requested_gpus;
  allocation_only = allocation_only;
  dependency = none;
  array_spec = none;
  time_limit_secs = resolved.time_limit_secs;
  begin_time = none;
  exclusive = false;
  stdout_path = none;
  stderr_path = none;
  constraint = resolved.constraint;
  cpu_bind = none;
  export_env = [];
  open_mode = truncate;
  warning_signal = none;
  requeue = false;
}

unfoldable pub command_basename : Host → Text → Text
unfolding lit
command_basename host command = unwrap_or (lit "srun") (host.file_name command)

first_or : Text → List Text → Text
first_or otherwise [] = otherwise
first_or otherwise (c ∷ cs) = c

-- `debug` is the text `{other:?}` of a response; `rounds` bounds each waiting loop; `foreground` is the
-- rest of an allocation's life; `step` runs a command inside an allocation. The lines are those of a
-- command that succeeds.
module _ (debug : Response → Text) (rounds : ℕ) (host : Host) (config : AppConfig)
    (foreground : JobRecord → List Text → Client (List Text))
    (step : JobRecord → List Text → Client (List Text)) where
  unfoldable pub wait_if : Bool → ℕ → Client (Unit {0})
  unfolding done wait_for_submission_completion
  wait_if false job_id = done tt
  wait_if true job_id = wait_for_submission_completion debug rounds job_id

  unfoldable pub sbatch_answer : SbatchArgs → Response → Client (List Text)
  unfolding chain wait_if done refuse show_nat lit
  sbatch_answer args (submitted job_id) = chain (wait_if args.wait job_id) λ waited. done (
      (if args.parsable then show_nat job_id else lit "Submitted batch job " ++ show_nat job_id)
      ∷ [])
  sbatch_answer args (error problem) = refuse problem
  sbatch_answer args other = refuse (lit "unexpected response to sbatch: " ++ debug other)

  unfoldable pub run_sbatch : SbatchArgs → Client (List Text)
  unfolding from_result build_sbatch_request asking sbatch_answer
  run_sbatch args =
      from_result (build_sbatch_request host config args)
        λ request. asking (submit_batch request) (sbatch_answer args)

  in_foreground : ℕ → List Text → Client (List Text)
  unfolding chain wait_for_job_running
  in_foreground job_id command =
      chain (wait_for_job_running debug rounds job_id) λ found. foreground found command

  salloc_answer : List Text → Response → Client (List Text)
  unfolding chain in_foreground done refuse show_nat lit
  salloc_answer command (submitted job_id) =
      chain (in_foreground job_id command)
        λ rest. done ((lit "Granted job allocation " ++ show_nat job_id) ∷ rest)
  salloc_answer command (error problem) = refuse problem
  salloc_answer command other = refuse (lit "unexpected response to salloc: " ++ debug other)

  salloc_command : List Text → List Text
  unfolding env_value lit
  salloc_command [] = unwrap_or (lit "/bin/bash") (env_value host.vars (lit "SHELL")) ∷ []
  salloc_command (c ∷ cs) = c ∷ cs

  unfoldable pub run_salloc : SallocArgs → Client (List Text)
  unfolding from_result resolve salloc_command command_basename first_or shell_join asking
      salloc_answer lit
  run_salloc args = from_result (resolve host.current_dir config args.resources none) λ resolved.
      let command = salloc_command args.command in
      asking
        (submit_alloc
          (plain_request host resolved (lit "salloc")
            (command_basename host (first_or (lit "salloc") command)) [] (shell_join command) true)
          args.immediate)
        (salloc_answer command)

  -- The daemon speaks of `salloc`, the user of `srun`.
  srun_problem : Text → Text
  unfolding text_eq lit
  srun_problem problem =
      if text_eq problem (lit "resources are not currently available for --immediate salloc")
      then lit "resources are not currently available for --immediate srun"
      else problem

  interactive_answer : List Text → Response → Client (List Text)
  unfolding in_foreground refuse srun_problem lit
  interactive_answer command (submitted job_id) = in_foreground job_id command
  interactive_answer command (error problem) = refuse (srun_problem problem)
  interactive_answer command other =
      refuse (lit "unexpected response to interactive srun: " ++ debug other)

  interactive_request : SrunArgs → ResolvedResourceArgs → Text → SubmitRequest
  unfolding shell_join lit
  interactive_request args resolved command_name =
      record (plain_request host resolved command_name (lit "srun") [] (shell_join args.command)
        true) { cpu_bind = args.cpu_bind }

  unfoldable pub run_interactive_srun : SrunArgs → ResolvedResourceArgs → Text → Client (List Text)
  unfolding interactive_request asking interactive_answer
  run_interactive_srun args resolved command_name =
      asking (submit_alloc (interactive_request args resolved command_name) args.immediate)
        (interactive_answer args.command)

  unwaited_answer : Response → Client (List Text)
  unfolding done refuse show_nat lit
  unwaited_answer (submitted job_id) = done ((lit "Submitted run job " ++ show_nat job_id) ∷ [])
  unwaited_answer (error problem) = refuse problem
  unwaited_answer other = refuse (lit "unexpected response to srun: " ++ debug other)

  unwaited_request : SrunArgs → ResolvedResourceArgs → Text → SubmitRequest
  unfolding shell_join lit
  unwaited_request args resolved command_name =
      record (plain_request host resolved command_name command_name
        (lit "#!/usr/bin/env bash" ++ 10 ∷ lit "exec " ++ shell_join args.command ++ 10 ∷ [])
        (shell_join args.command) false) {
          stdout_path = args.output;
          stderr_path = args.error;
          cpu_bind = args.cpu_bind;
        }

  command_name_of : List Text → Text
  unfolding command_basename lit
  command_name_of [] = lit "srun"
  command_name_of (c ∷ cs) = command_basename host c

  run_outside : SrunArgs → ResolvedResourceArgs → Client (List Text)
  unfolding command_name_of run_interactive_srun unwaited_request asking unwaited_answer refuse lit
  run_outside args resolved =
      let command_name = command_name_of args.command in
      if args.no_wait
      then (if args.label || args.unbuffered
          then refuse (lit "--label and --unbuffered are not supported with --no-wait")
          else asking (submit_run (unwaited_request args resolved command_name) args.immediate)
              unwaited_answer)
      else run_interactive_srun args resolved command_name

  unfoldable pub allocation_answer : Response → Client (Option JobRecord)
  unfolding done refuse lit
  allocation_answer (job none) = done none
  allocation_answer (job (some found)) =
      done (if state_eq found.state running && found.allocation_only then some found else none)
  allocation_answer (error problem) = refuse problem
  allocation_answer other =
      refuse (lit "unexpected response while loading current allocation: " ++ debug other)

  unfoldable pub ask_allocation : Option ℤ → Client (Option JobRecord)
  unfolding done asking allocation_answer
  ask_allocation none = done none
  ask_allocation (some (pos job_id)) = asking (get_job_of job_id) allocation_answer
  ask_allocation (some (negsuc n)) = asking (get_job_of 0) allocation_answer

  unfoldable pub parse_allocation : Option Text → Client (Option JobRecord)
  unfolding parse_i64 ask_allocation done
  parse_allocation none = done none
  parse_allocation (some value) = ask_allocation (parse_i64 value)

  -- The allocation that the command runs in, by the variable SLURM_JOB_ID.
  unfoldable pub current_allocation_job : Client (Option JobRecord)
  unfolding env_value parse_allocation lit
  current_allocation_job = parse_allocation (env_value host.vars (lit "SLURM_JOB_ID"))

  srun_in : SrunArgs → Option JobRecord → Client (List Text)
  unfolding refuse from_result resolve run_outside lit
  srun_in args (some found) =
      if args.no_wait && (args.label || args.unbuffered)
      then refuse (lit "--label and --unbuffered are not supported with --no-wait")
      else step found args.command
  srun_in args none =
      from_result (resolve host.current_dir config args.resources none) (run_outside args)

  unfoldable pub run_srun : SrunArgs → Client (List Text)
  unfolding chain current_allocation_job srun_in refuse lit
  run_srun args =
      if args.pty
      then refuse (lit "--pty is not implemented yet; use plain foreground srun for now")
      else chain current_allocation_job (srun_in args)
