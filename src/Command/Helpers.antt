-- ===== src/Command/Helpers.antt =====
-- src/command/helpers.rs: states, the environment of `sbatch`, the order of `squeue` and references
-- to jobs.
use slotd.Prelude.{
  ℕ, Bool, true, false, not, List, [], ◌∷◌, ◌++◌, keep, any, sort_by, Option, none, some, Text, lit,
  leb, ◌==◌, if◌then◌else◌, ℤ, pos, negsuc, leb_ℤ, Result, ok, message, ok_or, collect,
}
use slotd.Strings.{
  trim, to_ascii_uppercase, to_ascii_lowercase, text_case, text_lt, text_eq, starts_with, is_empty,
  parse_u32, parse_i64, split_once, show_nat,
}
use slotd.Job.{
  JobRecord, JobState, PartitionInfo, pending, running, completing, completed, failed, cancelled,
  timeout, out_of_memory, state_str, unwrap_or,
}
use slotd.Submit.Limits.{parse_mem_mb, parse_time_limit_secs}
use slotd.Util.Env.{parse_env_flag}
use slotd.Daemon.{Response, list_steps_of, get_job_of, jobs, job, error}
use slotd.Command.Arguments.{SbatchEnvOverrides}
use slotd.Command.Client.{Client, done, refuse, from_result, asking}

abbrev state_names : List (Text × JobState)
state_names =
    (lit "PD", pending)
    ∷ (lit "PENDING", pending)
    ∷ (lit "R", running)
    ∷ (lit "RUNNING", running)
    ∷ (lit "CG", completing)
    ∷ (lit "COMPLETING", completing)
    ∷ (lit "CD", completed)
    ∷ (lit "COMPLETED", completed)
    ∷ (lit "F", failed)
    ∷ (lit "FAILED", failed)
    ∷ (lit "CA", cancelled)
    ∷ (lit "CANCELLED", cancelled)
    ∷ (lit "TO", timeout)
    ∷ (lit "TIMEOUT", timeout)
    ∷ (lit "OOM", out_of_memory)
    ∷ (lit "OUT_OF_MEMORY", out_of_memory)
    ∷ []

unfoldable pub parse_state : Text → Result JobState
unfolding trim to_ascii_uppercase text_case lit
parse_state value =
    ok_or (text_case state_names (to_ascii_uppercase (trim value)))
      (message (lit "unknown state: " ++ value))

unfoldable pub parse_states : List Text → Result (List JobState)
unfolding parse_state collect
parse_states = collect parse_state

-- `and_then(|value| parse(&value).ok())`.
get_with {ℓ} : {A : Type ℓ} → (Text → Option A) → Option Text → Option A
get_with parse none = none
get_with parse (some value) = parse value

ok_value {ℓ} : {A : Type ℓ} → Result A → Option A
ok_value (ok a) = some a
ok_value _ = none

flag : Option Text → Bool
unfolding parse_env_flag
flag none = false
flag (some value) = parse_env_flag value

unfoldable pub load_sbatch_env_overrides_with : (Text → Option Text) → SbatchEnvOverrides
unfolding get_with ok_value flag parse_u32 parse_mem_mb parse_time_limit_secs lit
load_sbatch_env_overrides_with get =
    let exclusive = flag (get (lit "SBATCH_EXCLUSIVE")) in
    let requeue = flag (get (lit "SBATCH_REQUEUE")) in
    record {
      directives = record {
        job_name = get (lit "SBATCH_JOB_NAME");
        partition = get (lit "SBATCH_PARTITION");
        cpus_per_task = get_with parse_u32 (get (lit "SBATCH_CPUS_PER_TASK"));
        ntasks = get_with parse_u32 (get (lit "SBATCH_NTASKS"));
        mem_mb = get_with (λ value. ok_value (parse_mem_mb value)) (get (lit "SBATCH_MEM"));
        gpus = get_with parse_u32 (get (lit "SBATCH_GPUS"));
        constraint = get (lit "SBATCH_CONSTRAINT");
        time_limit_secs =
            get_with (λ value. ok_value (parse_time_limit_secs value)) (get (lit "SBATCH_TIME"));
        begin = get (lit "SBATCH_BEGIN");
        exclusive = exclusive;
        requeue = requeue;
        dependency = get (lit "SBATCH_DEPENDENCY");
        array_spec = get (lit "SBATCH_ARRAY_INX");
        output_path = get (lit "SBATCH_OUTPUT");
        error_path = get (lit "SBATCH_ERROR");
        chdir = get (lit "SBATCH_CHDIR");
      };
      export = get (lit "SBATCH_EXPORT");
      export_file = get (lit "SBATCH_EXPORT_FILE");
      open_mode = get (lit "SBATCH_OPEN_MODE");
      signal = get (lit "SBATCH_SIGNAL");
      begin = get (lit "SBATCH_BEGIN");
      exclusive = exclusive;
      requeue = requeue;
    }

unfoldable pub filter_partitions : List PartitionInfo → Option (List Text) → List PartitionInfo
unfolding keep any text_eq
filter_partitions partitions none = partitions
filter_partitions partitions (some filters) =
    keep (λ p. any (λ filter. text_eq filter p.name) filters) partitions

-- The keys of `squeue --sort`. A comparison is given by `a` not behind `b`.
pub data SortKey : Type 0 where
  by_id by_partition by_user by_state by_time : SortKey

abbrev sort_keys : List (Text × SortKey)
sort_keys =
    (lit "i", by_id)
    ∷ (lit "jobid", by_id)
    ∷ (lit "p", by_partition)
    ∷ (lit "partition", by_partition)
    ∷ (lit "u", by_user)
    ∷ (lit "user", by_user)
    ∷ (lit "t", by_state)
    ∷ (lit "state", by_state)
    ∷ (lit "m", by_time)
    ∷ (lit "time", by_time)
    ∷ []

unfoldable pub text_leb : Text → Text → Bool
unfolding text_lt
text_leb s t = not (text_lt t s)

-- `None` is before `Some`.
unfoldable pub time_leb : Option ℤ → Option ℤ → Bool
time_leb none _ = true
time_leb (some s) none = false
time_leb (some s) (some t) = leb_ℤ s t

unfoldable pub key_leb : SortKey → JobRecord → JobRecord → Bool
unfolding text_leb time_leb state_str
key_leb by_id a b = leb a.id b.id
key_leb by_partition a b = text_leb a.partition b.partition
key_leb by_user a b = text_leb a.user_name b.user_name
key_leb by_state a b = text_leb (state_str a.state) (state_str b.state)
key_leb by_time a b = time_leb a.start_time b.start_time

-- `trim_start_matches(['+', '-'])`.
unfoldable pub trim_signs : Text → Text
trim_signs [] = []
trim_signs (c ∷ s) =
    let rest = trim_signs s in if c == b'+' then rest else if c == b'-' then rest else c ∷ s

unfoldable pub sort_key : Text → SortKey
unfolding text_case to_ascii_lowercase trim_signs lit
sort_key sort = unwrap_or by_id (text_case sort_keys (to_ascii_lowercase (trim_signs sort)))

unfoldable pub may_stand_before : Text → JobRecord → JobRecord → Bool
unfolding key_leb sort_key starts_with lit
may_stand_before sort a b =
    if starts_with (lit "-") sort then key_leb (sort_key sort) b a else key_leb (sort_key sort) a b

unfoldable pub sort_squeue_jobs : List JobRecord → Option Text → List JobRecord
unfolding trim is_empty sort_by may_stand_before
sort_squeue_jobs js none = js
sort_squeue_jobs js (some sort) =
    if is_empty (trim sort) then js else sort_by (may_stand_before (trim sort)) js

-- An id below 1 names no row; such an id stands as 0.
unfoldable pub row_id : ℤ → ℕ
row_id (pos n) = n
row_id (negsuc n) = 0

unfoldable pub step_row : ℕ → List JobRecord → Option ℕ
step_row step_id [] = none
step_row step_id (entry ∷ entries) =
    let rest = step_row step_id entries in
    elim entry.step_id [ none ↦ rest | some s ↦ if s == step_id then some entry.id else rest ]

-- `debug` is the text `{other:?}` of a response.
unfoldable pub step_found : (debug : Response → Text) → Text → ℕ → Response → Client ℕ
unfolding step_row from_result done refuse lit
step_found debug value step_id (jobs entries) =
    from_result
      (ok_or (step_row step_id entries) (message (lit "unknown step reference: " ++ value))) done
step_found debug value step_id (error problem) = refuse problem
step_found debug value step_id other =
    refuse (
      lit "unexpected response while resolving step reference " ++ value ++ lit ": " ++ debug other)

unfoldable pub reference_of_parts :
    (debug : Response → Text) → Text → Option (Text × Text) → Client ℕ
unfolding parse_i64 parse_u32 step_found row_id asking from_result done lit
reference_of_parts debug value (some (parent, step)) =
    from_result (ok_or (parse_i64 parent) (message (lit "invalid job id: " ++ value)))
      λ parent_job_id.
        from_result (ok_or (parse_u32 step) (message (lit "invalid step id: " ++ value)))
          λ step_id. asking (list_steps_of (row_id parent_job_id)) (step_found debug value step_id)
reference_of_parts debug value none =
    from_result (ok_or (parse_i64 value) (message (lit "invalid job id: " ++ value)))
      λ job_id. done (row_id job_id)

unfoldable pub resolve_job_reference : (debug : Response → Text) → Text → Client ℕ
unfolding split_once reference_of_parts
resolve_job_reference debug value = reference_of_parts debug value (split_once b'.' value)

unfoldable pub job_loaded : (debug : Response → Text) → Text → Response → Client JobRecord
unfolding done refuse lit
job_loaded debug id_text (job (some found)) = done found
job_loaded debug id_text (job none) = refuse (lit "job " ++ id_text ++ lit " not found")
job_loaded debug id_text (error problem) = refuse problem
job_loaded debug id_text other =
    refuse (lit "unexpected response while loading job " ++ id_text ++ lit ": " ++ debug other)

unfoldable pub load_job : (debug : Response → Text) → ℕ → Client JobRecord
unfolding job_loaded asking show_nat
load_job debug job_id = asking (get_job_of job_id) (job_loaded debug (show_nat job_id))
