-- ===== src/Job/Defs.antt =====
-- The data of src/model/job.rs. Row ids are positive, so an id of a stored job is a ℕ; times,
-- priorities, exit codes, signals and process ids are signed.
use slotd.Prelude.{
  ℕ, Bool, true, false, List, ◌++◌, Option, none, some, Text, lit, if◌then◌else◌, ℤ,
}
use slotd.Strings.{text_eq, to_ascii_lowercase}

-- The `Err(String)` of the two `FromStr`s.
pub data Parsed {ℓ} (A : Type ℓ) : Type ℓ where
  parsed : A → Parsed A
  unparsed : Text → Parsed A

pub data OpenMode : Type 0 where
  append truncate : OpenMode

unfoldable pub open_mode_str : OpenMode → Text
unfolding lit
open_mode_str append = lit "append"
open_mode_str truncate = lit "truncate"

unfoldable pub open_mode_from_str : Text → Parsed OpenMode
unfolding text_eq lit to_ascii_lowercase
open_mode_from_str value =
    let other = to_ascii_lowercase value in
    if text_eq other (lit "append")
    then parsed append
    else if text_eq other (lit "truncate")
    then parsed truncate
    else unparsed (lit "unsupported open mode: " ++ other)

pub record WarningSignal : Type 0 where
  pub signal : ℤ
  pub seconds_before_end : ℕ

pub data JobState : Type 0 where
  pending running completing completed failed cancelled timeout out_of_memory : JobState

unfoldable pub state_str : JobState → Text
unfolding lit
state_str pending = lit "PENDING"
state_str running = lit "RUNNING"
state_str completing = lit "COMPLETING"
state_str completed = lit "COMPLETED"
state_str failed = lit "FAILED"
state_str cancelled = lit "CANCELLED"
state_str timeout = lit "TIMEOUT"
state_str out_of_memory = lit "OUT_OF_MEMORY"

unfoldable pub short_code : JobState → Text
unfolding lit
short_code pending = lit "PD"
short_code running = lit "R"
short_code completing = lit "CG"
short_code completed = lit "CD"
short_code failed = lit "F"
short_code cancelled = lit "CA"
short_code timeout = lit "TO"
short_code out_of_memory = lit "OOM"

abbrev pub is_terminal : JobState → Bool
is_terminal pending = false
is_terminal running = false
is_terminal completing = false
is_terminal completed = true
is_terminal failed = true
is_terminal cancelled = true
is_terminal timeout = true
is_terminal out_of_memory = true

-- The derived `==`.
abbrev pub state_eq : JobState → JobState → Bool
state_eq pending pending = true
state_eq running running = true
state_eq completing completing = true
state_eq completed completed = true
state_eq failed failed = true
state_eq cancelled cancelled = true
state_eq timeout timeout = true
state_eq out_of_memory out_of_memory = true
state_eq _ _ = false

unfoldable pub state_from_str : Text → Parsed JobState
unfolding text_eq lit
state_from_str value =
    if text_eq value (lit "PENDING")
    then parsed pending
    else if text_eq value (lit "RUNNING")
    then parsed running
    else if text_eq value (lit "COMPLETING")
    then parsed completing
    else if text_eq value (lit "COMPLETED")
    then parsed completed
    else if text_eq value (lit "FAILED")
    then parsed failed
    else if text_eq value (lit "CANCELLED")
    then parsed cancelled
    else if text_eq value (lit "TIMEOUT")
    then parsed timeout
    else if text_eq value (lit "OUT_OF_MEMORY")
    then parsed out_of_memory
    else unparsed (lit "unknown job state: " ++ value)

pub record JobRecord : Type 0 where
  pub id : ℕ
  pub parent_job_id : Option ℕ
  pub step_id : Option ℕ
  pub held : Bool
  pub priority : ℤ
  pub name : Text
  pub user_name : Text
  pub state : JobState
  pub partition : Text
  pub command : Text
  pub cwd : Text
  pub requested_cpus : ℕ
  pub requested_tasks : ℕ
  pub requested_memory_mb : ℕ
  pub requested_gpus : ℕ
  pub allocation_only : Bool
  pub dependency : Option Text
  pub array_job_id : Option ℕ
  pub array_task_id : Option ℤ
  pub array_task_count : Option ℕ
  pub array_task_limit : Option ℕ
  pub max_rss_kb : Option ℕ
  pub submit_time : ℤ
  pub start_time : Option ℤ
  pub end_time : Option ℤ
  pub pid : Option ℤ
  pub pgid : Option ℤ
  pub exit_code : Option ℤ
  pub state_reason : Option Text
  pub term_signal : Option ℤ
  pub time_limit_secs : Option ℕ
  pub begin_time : Option ℤ
  pub exclusive : Bool
  pub assigned_gpu_ids : List ℕ
  pub script_path : Text
  pub stdout_path : Text
  pub stderr_path : Text
  pub constraint : Option Text
  pub cpu_bind : Option Text
  pub export_env : List (Text × Text)
  pub open_mode : OpenMode
  pub warning_signal : Option WarningSignal
  pub requeue : Bool
  pub requeue_count : ℕ

pub record SubmitRequest : Type 0 where
  pub name : Option Text
  pub user_name : Text
  pub partition : Text
  pub cwd : Text
  pub script_name : Text
  pub script_body : Text
  pub command_override : Option Text
  pub requested_cpus : ℕ
  pub requested_tasks : ℕ
  pub requested_memory_mb : ℕ
  pub requested_gpus : ℕ
  pub allocation_only : Bool
  pub dependency : Option Text
  pub array_spec : Option Text
  pub time_limit_secs : Option ℕ
  pub begin_time : Option ℤ
  pub exclusive : Bool
  pub stdout_path : Option Text
  pub stderr_path : Option Text
  pub constraint : Option Text
  pub cpu_bind : Option Text
  pub export_env : List (Text × Text)
  pub open_mode : OpenMode
  pub warning_signal : Option WarningSignal
  pub requeue : Bool

pub record PartitionInfo : Type 0 where
  pub name : Text
  pub hostname : Text
  pub state : Text
  pub gres_used : Text
  pub features : Text
  pub total_cpus : ℕ
  pub total_memory_mb : ℕ
  pub total_gpus : ℕ
  pub allocated_cpus : ℕ
  pub allocated_memory_mb : ℕ
  pub allocated_gpus : ℕ
  pub running_jobs : ℕ
  pub pending_jobs : ℕ

pub record NodeInfo : Type 0 where
  pub partitions : List PartitionInfo

-- `unwrap_or`, and `saturating_mul` and `saturating_sub` of `u32`.
abbrev pub unwrap_or {ℓ} : {A : Type ℓ} → A → Option A → A
unwrap_or d none = d
unwrap_or d (some a) = a
