-- ===== src/Format/Squeue.antt =====
-- src/format/squeue.rs: the fields of `squeue` and its table. The clock is an argument.
use slotd.Prelude.{
  ℕ, ◌/◌, ◌%◌, Bool, true, false, List, [], ◌∷◌, ◌++◌, map, Option, none, some, Text, lit, ltb,
  if◌then◌else◌, ℤ, pos, pos_part, clamp_i64, as_i64, ◌-ℤ◌,
}
use slotd.Strings.{text_case, char_case, contains_char, show_nat, show_int, show_padded}
use slotd.Job.{
  Parsed, parsed, JobRecord, JobState, pending, running, completing, completed, failed, cancelled,
  timeout, out_of_memory, short_code, unwrap_or,
}
use slotd.Job.Display.{display_job_id}
use slotd.Format.Tokens.{parse_names, parse_codes}
use slotd.Format.Table.{TableColumn, print_table}

pub data SqueueField : Type 0 where
  job_id partition name user state_compact time time_limit num_tasks req_cpus req_mem req_gpus
        start_time node_list_reason :
      SqueueField

unfoldable pub header : SqueueField → Text
unfolding lit
header SqueueField.job_id = lit "JOBID"
header SqueueField.partition = lit "PARTITION"
header SqueueField.name = lit "NAME"
header SqueueField.user = lit "USER"
header SqueueField.state_compact = lit "ST"
header SqueueField.time = lit "TIME"
header SqueueField.time_limit = lit "TIME_LIMIT"
header SqueueField.num_tasks = lit "NTASKS"
header SqueueField.req_cpus = lit "CPUS"
header SqueueField.req_mem = lit "REQ_MEM"
header SqueueField.req_gpus = lit "REQ_GPU"
header SqueueField.start_time = lit "START_TIME"
header SqueueField.node_list_reason = lit "NODELIST(REASON)"

unfoldable pub width : SqueueField → ℕ
width SqueueField.job_id = 12
width SqueueField.partition = 9
width SqueueField.name = 10
width SqueueField.user = 12
width SqueueField.state_compact = 2
width SqueueField.time = 11
width SqueueField.time_limit = 11
width SqueueField.num_tasks = 6
width SqueueField.req_cpus = 6
width SqueueField.req_mem = 8
width SqueueField.req_gpus = 7
width SqueueField.start_time = 19
width SqueueField.node_list_reason = 16

unfoldable pub right_align : SqueueField → Bool
right_align SqueueField.job_id = true
right_align SqueueField.partition = false
right_align SqueueField.name = false
right_align SqueueField.user = false
right_align SqueueField.state_compact = false
right_align SqueueField.time = true
right_align SqueueField.time_limit = true
right_align SqueueField.num_tasks = true
right_align SqueueField.req_cpus = true
right_align SqueueField.req_mem = true
right_align SqueueField.req_gpus = true
right_align SqueueField.start_time = true
right_align SqueueField.node_list_reason = false

-- `saturating_sub` of `i64`.
unfoldable pub saturating_sub : ℤ → ℤ → ℤ
saturating_sub a b = clamp_i64 (a -ℤ b)

-- `seconds.max(0)`, in days, hours, minutes and seconds.
unfoldable pub format_duration : ℤ → Text
unfolding show_nat show_padded lit
format_duration seconds =
    let total = pos_part seconds in
    let days = total / 86400 in
    let rem = total % 86400 in
    let clock = lit ":" ++ show_padded 2 (rem % 3600 / 60) ++ lit ":" ++ show_padded 2 (rem % 60) in
    if ltb 0 days
    then show_nat days ++ lit "-" ++ show_padded 2 (rem / 3600) ++ clock
    else show_nat (rem / 3600) ++ clock

between : Option ℤ → Option ℤ → ℤ
unfolding saturating_sub
between (some start) (some end) = saturating_sub end start
between (some start) none = pos 0
between none end = pos 0

elapsed : JobState → ℤ → JobRecord → ℤ
unfolding between
elapsed pending now job = pos 0
elapsed running now job = between job.start_time (some now)
elapsed _ now job = between job.start_time job.end_time

unfoldable pub format_elapsed : ℤ → JobRecord → Text
unfolding format_duration elapsed
format_elapsed now job = format_duration (elapsed job.state now job)

format_reason : Text → Text
unfolding lit
format_reason reason = lit "(" ++ reason ++ lit ")"

reason_or : Text → JobRecord → Text
unfolding format_reason
reason_or otherwise job = format_reason (unwrap_or otherwise job.state_reason)

squeue_nodelist_reason : Text → JobState → JobRecord → Text
unfolding reason_or lit
squeue_nodelist_reason hostname pending job = reason_or (lit "Resources") job
squeue_nodelist_reason hostname running job = hostname
squeue_nodelist_reason hostname completing job = reason_or (lit "Completing") job
squeue_nodelist_reason hostname completed job = hostname
squeue_nodelist_reason hostname cancelled job = reason_or (lit "Cancelled") job
squeue_nodelist_reason hostname failed job = reason_or (lit "Failed") job
squeue_nodelist_reason hostname timeout job = reason_or (lit "TimeLimit") job
squeue_nodelist_reason hostname out_of_memory job = reason_or (lit "OutOfMemory") job

-- `value as i64` of a `u64` that may not fit.
time_limit_text : Option ℕ → Text
unfolding format_duration lit
time_limit_text none = lit "UNLIMITED"
time_limit_text (some value) = format_duration (as_i64 value)

unfoldable pub render : (hostname : Text) → (now : ℤ) → JobRecord → SqueueField → Text
unfolding format_elapsed time_limit_text squeue_nodelist_reason display_job_id short_code show_nat
    lit
render hostname now job SqueueField.job_id = display_job_id job
render hostname now job SqueueField.partition = job.partition
render hostname now job SqueueField.name = job.name
render hostname now job SqueueField.user = job.user_name
render hostname now job SqueueField.state_compact = short_code job.state
render hostname now job SqueueField.time = format_elapsed now job
render hostname now job SqueueField.time_limit = time_limit_text job.time_limit_secs
render hostname now job SqueueField.num_tasks = show_nat job.requested_tasks
render hostname now job SqueueField.req_cpus = show_nat job.requested_cpus
render hostname now job SqueueField.req_mem = show_nat job.requested_memory_mb ++ lit "M"
render hostname now job SqueueField.req_gpus = show_nat job.requested_gpus
render hostname now job SqueueField.start_time = []
render hostname now job SqueueField.node_list_reason = squeue_nodelist_reason hostname job.state job

array_job_text : JobRecord → Option ℕ → Option ℤ → Text
unfolding show_nat show_int lit
array_job_text job (some array_job_id) (some array_task_id) =
    show_nat array_job_id ++ lit "_" ++ show_int array_task_id
array_job_text job (some array_job_id) none = show_nat job.id
array_job_text job none _ = show_nat job.id

format_squeue_job_id : JobRecord → Text
unfolding array_job_text
format_squeue_job_id job = array_job_text job job.array_job_id job.array_task_id

-- A field in `squeue -r`, and one where the start times are known.
unfoldable pub option_cell : Text → ℤ → Bool → JobRecord → SqueueField → Text
unfolding render format_squeue_job_id
option_cell hostname now true job SqueueField.job_id = format_squeue_job_id job
option_cell hostname now false job SqueueField.job_id = render hostname now job SqueueField.job_id
option_cell hostname now array_mode job field = render hostname now job field

unfoldable pub start_cell : Text → ℤ → Bool → (ℕ → Option Text) → JobRecord → SqueueField → Text
unfolding option_cell
start_cell hostname now array_mode start_times job SqueueField.start_time =
    unwrap_or [] (start_times job.id)
start_cell hostname now array_mode start_times job field =
    option_cell hostname now array_mode job field

unfoldable pub columns_of : List SqueueField → List TableColumn
unfolding header width right_align
columns_of [] = []
columns_of (f ∷ fs) =
    record { header = header f; width = width f; right_align = right_align f } ∷ columns_of fs

abbrev pub field_names : List (Text × SqueueField)
field_names =
    (lit "jobid", SqueueField.job_id)
    ∷ (lit "partition", SqueueField.partition)
    ∷ (lit "name", SqueueField.name)
    ∷ (lit "jobname", SqueueField.name)
    ∷ (lit "user", SqueueField.user)
    ∷ (lit "st", SqueueField.state_compact)
    ∷ (lit "state", SqueueField.state_compact)
    ∷ (lit "time", SqueueField.time)
    ∷ (lit "elapsed", SqueueField.time)
    ∷ (lit "timelimit", SqueueField.time_limit)
    ∷ (lit "time_limit", SqueueField.time_limit)
    ∷ (lit "ntasks", SqueueField.num_tasks)
    ∷ (lit "cpus", SqueueField.req_cpus)
    ∷ (lit "reqcpus", SqueueField.req_cpus)
    ∷ (lit "reqmem", SqueueField.req_mem)
    ∷ (lit "reqgpu", SqueueField.req_gpus)
    ∷ (lit "reqgpus", SqueueField.req_gpus)
    ∷ (lit "start", SqueueField.start_time)
    ∷ (lit "starttime", SqueueField.start_time)
    ∷ (lit "nodelist(reason)", SqueueField.node_list_reason)
    ∷ (lit "nodelistreason", SqueueField.node_list_reason)
    ∷ (lit "reason", SqueueField.node_list_reason)
    ∷ (lit "nodelist", SqueueField.node_list_reason)
    ∷ []

abbrev field_codes : List (ℕ × SqueueField)
field_codes =
    (b'i', SqueueField.job_id)
    ∷ (b'P', SqueueField.partition)
    ∷ (b'j', SqueueField.name)
    ∷ (b'u', SqueueField.user)
    ∷ (b't', SqueueField.state_compact)
    ∷ (b'T', SqueueField.state_compact)
    ∷ (b'M', SqueueField.time)
    ∷ (b'S', SqueueField.start_time)
    ∷ (b'R', SqueueField.node_list_reason)
    ∷ (b'N', SqueueField.node_list_reason)
    ∷ []

parse_percent_squeue_fields : Text → Parsed (List SqueueField)
unfolding parse_codes char_case lit
parse_percent_squeue_fields =
    parse_codes (char_case field_codes) (lit "unsupported squeue format code: %")

unfoldable pub parse_squeue_fields : Option Text → Bool → Parsed (List SqueueField)
unfolding parse_percent_squeue_fields parse_names text_case contains_char lit
parse_squeue_fields none true = parsed (
    SqueueField.job_id ∷ SqueueField.partition ∷ SqueueField.name ∷ SqueueField.user
    ∷ SqueueField.state_compact ∷ SqueueField.time ∷ SqueueField.time_limit ∷ SqueueField.num_tasks
    ∷ SqueueField.req_cpus ∷ SqueueField.req_mem ∷ SqueueField.req_gpus
    ∷ SqueueField.node_list_reason ∷ [])
parse_squeue_fields none false = parsed (
    SqueueField.job_id ∷ SqueueField.partition ∷ SqueueField.name ∷ SqueueField.user
    ∷ SqueueField.state_compact ∷ SqueueField.time ∷ SqueueField.node_list_reason ∷ [])
parse_squeue_fields (some spec) long =
    if contains_char b'%' spec
    then parse_percent_squeue_fields spec
    else parse_names (text_case field_names) (lit "unsupported squeue field: ") spec

unfoldable pub print_squeue_jobs_with_options :
    (hostname : Text)
    → (now : ℤ) → List JobRecord
    → List SqueueField
    → (noheader array_mode : Bool) → Option (List Text)
unfolding option_cell columns_of print_table
print_squeue_jobs_with_options hostname now jobs fields noheader array_mode =
    print_table (columns_of fields)
      (map (λ job. map (option_cell hostname now array_mode job) fields) jobs) noheader

unfoldable pub print_squeue_jobs :
    (hostname : Text)
    → (now : ℤ) → List JobRecord
    → List SqueueField
    → (noheader : Bool) → Option (List Text)
unfolding print_squeue_jobs_with_options
print_squeue_jobs hostname now jobs fields noheader =
    print_squeue_jobs_with_options hostname now jobs fields noheader false

unfoldable pub print_squeue_jobs_with_start_times :
    (hostname : Text)
    → (now : ℤ) → List JobRecord
    → List SqueueField
    → (start_times : ℕ → Option Text) → (noheader array_mode : Bool) → Option (List Text)
unfolding start_cell columns_of print_table
print_squeue_jobs_with_start_times hostname now jobs fields start_times noheader array_mode =
    print_table (columns_of fields)
      (map (λ job. map (start_cell hostname now array_mode start_times job) fields) jobs) noheader
