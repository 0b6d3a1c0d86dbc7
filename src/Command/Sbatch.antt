-- ===== src/Command/Sbatch.antt =====
-- src/command/submit: `sbatch`, and how `salloc` and `srun` get their allocation.
use slotd.Prelude.{
  false, ◌||◌, [], ◌∷◌, ◌++◌, Option, none, some, Text, lit, ℤ, Result, ok, err, message, Answer,
  to_result, ◌>>=◌,
}
use slotd.Config.{AppConfig}
use slotd.Job.{
  SubmitRequest, OpenMode, open_mode_from_str, Parsed, parsed, unparsed, WarningSignal, unwrap_or,
}
use slotd.Submit.Directives.{
  BatchDirectives, no_directives, parse_directives, merge_batch_directives, or_else,
}
use slotd.Util.Env.{Env, resolve_export_env, env_value}
use slotd.Util.Signals.{parse_warning_signal}
use slotd.Util.Time.{parse_begin_time}
use slotd.Command.Arguments.{SbatchArgs, ResolvedResourceArgs, SbatchEnvOverrides, resolve}
use slotd.Command.Helpers.{load_sbatch_env_overrides_with}

-- What the client's process knows: its environment, its directory, the clock and the files.
pub record Host : Type 0 where
  pub vars : Env
  pub current_dir : Text
  pub now : ℤ
  pub read_file : Text → Answer Text
  pub file_name : Text → Option Text

unfoldable pub current_user_name : Host → Text
unfolding env_value lit
current_user_name host = unwrap_or (lit "unknown") (env_value host.vars (lit "USER"))

pub record BatchSource : Type 0 where
  pub script_name : Text
  pub script_body : Text
  pub directives : BatchDirectives
  pub command_override : Option Text

unfoldable pub script_source : Host → Option Text → Result BatchSource
unfolding parse_directives lit
script_source host none = err (message (lit "script is required"))
script_source host (some script) = do
  script_body ← to_result (host.read_file script)
  directives ← parse_directives script_body
  ok (record {
    script_name = unwrap_or (lit "script.sh") (host.file_name script);
    script_body = script_body;
    directives = directives;
    command_override = none;
  })

unfoldable pub source_of : Host → Option Text → Option Text → Result BatchSource
unfolding script_source no_directives lit
source_of host script (some wrap) = ok (record {
  script_name = lit "wrap";
  script_body = lit "#!/usr/bin/env bash" ++ 10 ∷ wrap ++ 10 ∷ [];
  directives = no_directives;
  command_override = some wrap;
})
source_of host script none = script_source host script

unfoldable pub resolve_batch_source : Host → SbatchArgs → Result BatchSource
unfolding source_of
resolve_batch_source host args = source_of host args.script args.wrap

unfoldable pub transpose : {A B : Type 0} → (A → Result B) → Option A → Result (Option B)
transpose f none = ok none
transpose f (some a) = f a >>= λ b. ok (some b)

unfoldable pub to_open_mode : Parsed OpenMode → Result OpenMode
to_open_mode (parsed m) = ok m
to_open_mode (unparsed problem) = err (message problem)

unfoldable pub read_export : Host → Option Text → Option (Answer Text)
read_export host none = none
read_export host (some path) = some (host.read_file path)

unfoldable pub batch_request :
    Host
    → SbatchArgs
    → BatchSource
    → SbatchEnvOverrides
    → BatchDirectives
    → ResolvedResourceArgs
    → Env
    → OpenMode
    → Option WarningSignal
    → Option ℤ
    → SubmitRequest
unfolding current_user_name
batch_request host args source env_overrides defaults resolved export_env open_mode warning_signal
      begin_time =
    record {
      name = resolved.job_name;
      user_name = current_user_name host;
      partition = resolved.partition;
      cwd = resolved.cwd;
      script_name = source.script_name;
      script_body = source.script_body;
      command_override = source.command_override;
      requested_cpus = resolved.requested_cpus;
      requested_tasks = resolved.requested_tasks;
      requested_memory_mb = resolved.requested_memory_mb;
      requested_gpus = resolved.requested_gpus;
      allocation_only = false;
      dependency = or_else args.dependency defaults.dependency;
      array_spec = or_else args.array defaults.array_spec;
      time_limit_secs = resolved.time_limit_secs;
      begin_time = begin_time;
      exclusive = args.exclusive || env_overrides.exclusive || defaults.exclusive;
      stdout_path = or_else args.output defaults.output_path;
      stderr_path = or_else args.error defaults.error_path;
      constraint = resolved.constraint;
      cpu_bind = none;
      export_env = export_env;
      open_mode = open_mode;
      warning_signal = warning_signal;
      requeue = args.requeue || env_overrides.requeue || defaults.requeue;
    }

unfoldable pub build_sbatch_request : Host → AppConfig → SbatchArgs → Result SubmitRequest
unfolding resolve_batch_source load_sbatch_env_overrides_with env_value merge_batch_directives
    resolve resolve_export_env read_export to_open_mode open_mode_from_str transpose
    parse_warning_signal parse_begin_time batch_request lit
build_sbatch_request host config args = do
  source ← resolve_batch_source host args
  let env_overrides = load_sbatch_env_overrides_with (env_value host.vars)
  let defaults = merge_batch_directives source.directives env_overrides.directives
  resolved ← resolve host.current_dir config args.resources (some defaults)
  export_env ←
      resolve_export_env host.vars (or_else args.export env_overrides.export)
        (read_export host (or_else args.export_file env_overrides.export_file))
  open_mode ← to_open_mode (
      open_mode_from_str
        (unwrap_or (lit "truncate") (or_else args.open_mode env_overrides.open_mode)))
  warning_signal ← transpose parse_warning_signal (or_else args.signal env_overrides.signal)
  begin_time ←
      transpose (parse_begin_time host.now)
        (or_else (or_else args.begin env_overrides.begin) defaults.begin)
  ok (
      batch_request host args source env_overrides defaults resolved export_env open_mode
        warning_signal begin_time)
