-- ===== src/Command/Arguments.antt =====
-- src/command/args.rs: the arguments of the subcommands, and `ResourceArgs::resolve`.
use slotd.Strings.Debug.{debug_text}
use slotd.Prelude.{
  ℕ, ◌++◌, Bool, List, Option, none, some, Text, lit, Result, ok, message, guard, ◌>>=◌,
}
use slotd.Config.{AppConfig, has_partition, default_gpus_for_partition, matches_constraint}
use slotd.Submit.Limits.{parse_mem_mb, parse_time_limit_secs}
use slotd.Submit.Directives.{BatchDirectives, or_else}
use slotd.Job.{unwrap_or}

pub record ResourceArgs : Type 0 where
  pub job_name : Option Text
  pub partition : Option Text
  pub cpus_per_task : Option ℕ
  pub ntasks : Option ℕ
  pub mem : Option Text
  pub time : Option Text
  pub gpus : Option ℕ
  pub chdir : Option Text
  pub constraint : Option Text

pub record ResolvedResourceArgs : Type 0 where
  pub job_name : Option Text
  pub partition : Text
  pub cwd : Text
  pub requested_cpus : ℕ
  pub requested_tasks : ℕ
  pub requested_memory_mb : ℕ
  pub requested_gpus : ℕ
  pub time_limit_secs : Option ℕ
  pub constraint : Option Text

pub record SbatchEnvOverrides : Type 0 where
  pub directives : BatchDirectives
  pub export : Option Text
  pub export_file : Option Text
  pub open_mode : Option Text
  pub signal : Option Text
  pub begin : Option Text
  pub exclusive : Bool
  pub requeue : Bool

pub record SbatchArgs : Type 0 where
  pub script : Option Text
  pub wrap : Option Text
  pub resources : ResourceArgs
  pub output : Option Text
  pub error : Option Text
  pub export : Option Text
  pub export_file : Option Text
  pub open_mode : Option Text
  pub signal : Option Text
  pub begin : Option Text
  pub exclusive : Bool
  pub requeue : Bool
  pub dependency : Option Text
  pub array : Option Text
  pub parsable : Bool
  pub wait : Bool

-- An id below 1 names no row; such an id stands as 0.
pub record ScontrolArgs : Type 0 where
  pub action : Text
  pub entity : Text
  pub job_id : ℕ
  pub updates : List Text

pub record ScancelArgs : Type 0 where
  pub signal : Option Text
  pub job_id : Text

pub record SqueueArgs : Type 0 where
  pub all : Bool
  pub states : Option (List Text)
  pub jobs : Option (List ℕ)
  pub user : Option Text
  pub partitions : Option (List Text)
  pub format : Option Text
  pub sort : Option Text
  pub long : Bool
  pub start : Bool
  pub array : Bool
  pub noheader : Bool

pub record SacctArgs : Type 0 where
  pub jobs : Option (List ℕ)
  pub states : Option (List Text)
  pub start_time : Option Text
  pub end_time : Option Text
  pub user : Option Text
  pub partitions : Option (List Text)
  pub format : Option Text
  pub parsable2 : Bool
  pub noheader : Bool

pub record SrunArgs : Type 0 where
  pub resources : ResourceArgs
  pub output : Option Text
  pub error : Option Text
  pub immediate : Bool
  pub pty : Bool
  pub cpu_bind : Option Text
  pub label : Bool
  pub unbuffered : Bool
  pub no_wait : Bool
  pub command : List Text

pub record SallocArgs : Type 0 where
  pub resources : ResourceArgs
  pub immediate : Bool
  pub command : List Text

pub record SinfoArgs : Type 0 where
  pub partitions : Option (List Text)
  pub node : Bool
  pub long : Bool
  pub format : Option Text
  pub noheader : Bool

unfoldable pub validate_constraint : AppConfig → Text → Text → Result (Unit {0})
unfolding matches_constraint debug_text lit
validate_constraint config value partition = guard (matches_constraint config value partition) (
    message (
      lit "constraint "
      ++ debug_text value
      ++ lit " does not match local features for partition "
      ++ partition))

unfoldable pub check_constraint : AppConfig → Option Text → Text → Result (Unit {0})
unfolding validate_constraint
check_constraint config none partition = ok tt
check_constraint config (some value) partition = validate_constraint config value partition

-- `directives.and_then(|value| …)`.
unfoldable pub directive_of {ℓ} :
    {A : Type ℓ} → (BatchDirectives → Option A) → Option BatchDirectives → Option A
directive_of field none = none
directive_of field (some d) = field d

unfoldable pub memory_of : Option Text → Option ℕ → Result ℕ
unfolding parse_mem_mb
memory_of (some value) directive = parse_mem_mb value
memory_of none directive = ok (unwrap_or 512 directive)

unfoldable pub limit_of : Option Text → Option ℕ → Result (Option ℕ)
unfolding parse_time_limit_secs
limit_of (some value) directive = parse_time_limit_secs value >>= λ secs. ok (some secs)
limit_of none directive = ok directive

-- `current_dir` is what `current_dir_string` returns.
unfoldable pub resolve :
    (current_dir : Text)
    → AppConfig
    → ResourceArgs
    → Option BatchDirectives
    → Result ResolvedResourceArgs
unfolding has_partition default_gpus_for_partition check_constraint memory_of limit_of directive_of
    lit
resolve current_dir config args directives =
    let partition =
      unwrap_or config.default_partition
        (or_else args.partition (directive_of (λ d. d.partition) directives)) in
    let constraint = or_else args.constraint (directive_of (λ d. d.constraint) directives) in
    guard (has_partition config partition) (message (lit "unknown partition: " ++ partition))
    >>= λ known. memory_of args.mem (directive_of (λ d. d.mem_mb) directives) >>= λ memory.
        check_constraint config constraint partition >>= λ matched.
        limit_of args.time (directive_of (λ d. d.time_limit_secs) directives) >>= λ limit.
        ok (record {
          job_name = or_else args.job_name (directive_of (λ d. d.job_name) directives);
          partition = partition;
          cwd = unwrap_or current_dir (or_else args.chdir (directive_of (λ d. d.chdir) directives));
          requested_cpus =
              unwrap_or 1
                (or_else args.cpus_per_task (directive_of (λ d. d.cpus_per_task) directives));
          requested_tasks =
              unwrap_or 1 (or_else args.ntasks (directive_of (λ d. d.ntasks) directives));
          requested_memory_mb = memory;
          requested_gpus =
              unwrap_or (default_gpus_for_partition config partition)
                (or_else args.gpus (directive_of (λ d. d.gpus) directives));
          time_limit_secs = limit;
          constraint = constraint;
        })
