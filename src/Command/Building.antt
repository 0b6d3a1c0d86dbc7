-- ===== src/Command/Building.antt =====
-- What `sbatch` sends: `build_sbatch_request` of src/command/submit/batch.rs.
use slotd.Prelude.{
  List, [], ◌∷◌, ◌≡◌, sym, ap, ◌∙◌, true, Option, none, some, Text, ok, bind-ok, ok-injective,
  arith, lit,
}
use slotd.Config.{AppConfig, has_partition}
use slotd.Job.{SubmitRequest, open_mode_from_str, unwrap_or}
use slotd.Submit.Directives.{BatchDirectives, merge_batch_directives, or_else}
use slotd.Util.Env.{resolve_export_env, env_value}
use slotd.Util.Signals.{parse_warning_signal}
use slotd.Util.Time.{parse_begin_time}
use slotd.Command.Arguments.{SbatchArgs, resolve, check_constraint}
use slotd.Command.Helpers.{load_sbatch_env_overrides_with}
use slotd.Command.Sbatch.{
  Host, BatchSource, source_of, resolve_batch_source, build_sbatch_request, batch_request,
  read_export, to_open_mode, transpose,
}
use slotd.Command.Resolving.{resolve-IsPossible}

-- A request that can be met and that says what the command line says, where it speaks.
pub record IsAsked (config : AppConfig) (args : SbatchArgs) (r : SubmitRequest) : Type 0 where
  partition_known : has_partition config r.partition ≡ true
  constraint_matched : check_constraint config r.constraint r.partition ≡ ok tt
  wrap_run : (w : Text) → args.wrap ≡ some w → r.command_override ≡ some w
  dependency_kept : (d : Text) → args.dependency ≡ some d → r.dependency ≡ some d
  array_kept : (a : Text) → args.array ≡ some a → r.array_spec ≡ some a
  output_kept : (p : Text) → args.output ≡ some p → r.stdout_path ≡ some p
  error_kept : (p : Text) → args.error ≡ some p → r.stderr_path ≡ some p

or_else-some : {A : Type 0} (o later : Option A) (a : A) → o ≡ some a → or_else o later ≡ some a
or_else-some (some b) later a h = h
or_else-some none later a h = ground arith

wrapped :
    (host : Host) (script wrap : Option Text) (source : BatchSource) (w : Text)
    → source_of host script wrap ≡ ok source
    → wrap ≡ some w
    → source.command_override ≡ some w
unfolding source_of
wrapped host script (some v) source w h e =
    sym (ap (λ (b : BatchSource). b.command_override) (ok-injective _ source h)) ∙ e
wrapped host script none source w h e = ground arith

-- A request that `sbatch` builds names a partition that the configuration has, with a constraint that
-- matches its features; and the command of `--wrap`, the dependency, the array and the output files of the
-- command line are in it as they were given, whatever the environment and the script's directives say.
pub build_sbatch_request-IsAsked :
    (host : Host) (config : AppConfig) (args : SbatchArgs) (r : SubmitRequest)
    → build_sbatch_request host config args ≡ ok r
    → IsAsked config args r
unfolding build_sbatch_request resolve_batch_source batch_request
build_sbatch_request-IsAsked host config args r h =
    let (source, s, h1) = bind-ok (resolve_batch_source host args) _ r h in
    let env_overrides = load_sbatch_env_overrides_with (env_value host.vars) in
    let defaults = merge_batch_directives source.directives env_overrides.directives in
    let (resolved, v, h2) =
      bind-ok (resolve host.current_dir config args.resources (some defaults)) _ r h1 in
    let (export_env, e, h3) =
      bind-ok
        (resolve_export_env host.vars (or_else args.export env_overrides.export)
          (read_export host (or_else args.export_file env_overrides.export_file)))
        _ r h2 in
    let (open_mode, o, h4) =
      bind-ok
        (to_open_mode (
          open_mode_from_str
            (unwrap_or (lit "truncate") (or_else args.open_mode env_overrides.open_mode))))
        _ r h3 in
    let (warning, g, h5) =
      bind-ok (transpose parse_warning_signal (or_else args.signal env_overrides.signal)) _ r h4 in
    let (begin_time, b, h6) =
      bind-ok
        (transpose (parse_begin_time host.now)
          (or_else (or_else args.begin env_overrides.begin) defaults.begin))
        _ r h5 in
    let possible =
      resolve-IsPossible host.current_dir config args.resources (some defaults) resolved v in
    rw (sym (ok-injective _ r h6)) (record {
      partition_known = possible.partition_known;
      constraint_matched = possible.constraint_matched;
      wrap_run = λ w k. wrapped host args.script args.wrap source w s k;
      dependency_kept = λ d k. or_else-some args.dependency defaults.dependency d k;
      array_kept = λ a k. or_else-some args.array defaults.array_spec a k;
      output_kept = λ p k. or_else-some args.output defaults.output_path p k;
      error_kept = λ p k. or_else-some args.error defaults.error_path p k;
    })

-- The first of the sources that names a value.
pub preferred {ℓ} : {A : Type ℓ} → List (Option A) → Option A
preferred [] = none
preferred (some a ∷ sources) = some a
preferred (none ∷ sources) = preferred sources

-- Where a request's parts come from: the command line, the variable of this name, the script.
pub record IsPreferred (host : Host) (config : AppConfig) (args : SbatchArgs)
    (script : BatchDirectives) (r : SubmitRequest) : Type 0 where
  name :
      r.name
      ≡ preferred (
          args.resources.job_name
          ∷ env_value host.vars (lit "SBATCH_JOB_NAME")
          ∷ script.job_name
          ∷ [])
  partition :
      r.partition
      ≡ unwrap_or config.default_partition (
          preferred (
            args.resources.partition
            ∷ env_value host.vars (lit "SBATCH_PARTITION")
            ∷ script.partition
            ∷ []))
  constraint :
      r.constraint
      ≡ preferred (
          args.resources.constraint
          ∷ env_value host.vars (lit "SBATCH_CONSTRAINT")
          ∷ script.constraint
          ∷ [])
  cwd :
      r.cwd
      ≡ unwrap_or host.current_dir (
          preferred
            (args.resources.chdir ∷ env_value host.vars (lit "SBATCH_CHDIR") ∷ script.chdir ∷ []))
  dependency :
      r.dependency
      ≡ preferred
          (args.dependency ∷ env_value host.vars (lit "SBATCH_DEPENDENCY") ∷ script.dependency ∷ [])
  array :
      r.array_spec
      ≡ preferred
          (args.array ∷ env_value host.vars (lit "SBATCH_ARRAY_INX") ∷ script.array_spec ∷ [])
  output :
      r.stdout_path
      ≡ preferred
          (args.output ∷ env_value host.vars (lit "SBATCH_OUTPUT") ∷ script.output_path ∷ [])
  error :
      r.stderr_path
      ≡ preferred (args.error ∷ env_value host.vars (lit "SBATCH_ERROR") ∷ script.error_path ∷ [])
