-- ===== src/Format/Sacct.antt =====
-- src/format/sacct.rs: the fields of `sacct` and its tables.
use slotd.Prelude.{
  ℕ, Bool, true, false, List, [], ◌∷◌, ◌++◌, map, Option, none, some, Text, lit, if◌then◌else◌, ℤ,
}
use slotd.Strings.{join, text_case, char_case, contains_char, show_nat, show_int}
use slotd.Job.{Parsed, parsed, JobRecord, state_eq, pending, state_str, unwrap_or}
use slotd.Job.Display.{
  display_job_id, format_exit_status, format_job_req_tres, format_job_alloc_tres, saturating_mul,
}
use slotd.Config.{AppConfig, is_gpu_partition}
use slotd.Format.Tokens.{parse_names, parse_codes}
use slotd.Format.Table.{TableColumn, print_table}
use slotd.Format.Squeue.{format_elapsed}
use slotd.Util.Time.{format_timestamp}

pub data SacctField : Type 0 where
  job_id array_job_id array_task_id job_name partition user state reason exit_code elapsed
        alloc_cpus req_mem req_tres alloc_tres node_list submit start end work_dir batch_flag
        max_rss :
      SacctField

unfoldable pub header : SacctField → Text
unfolding lit
header SacctField.job_id = lit "JobID"
header SacctField.array_job_id = lit "ArrayJobID"
header SacctField.array_task_id = lit "ArrayTaskID"
header SacctField.job_name = lit "JobName"
header SacctField.partition = lit "Partition"
header SacctField.user = lit "User"
header SacctField.state = lit "State"
header SacctField.reason = lit "Reason"
header SacctField.exit_code = lit "ExitCode"
header SacctField.elapsed = lit "Elapsed"
header SacctField.alloc_cpus = lit "AllocCPUS"
header SacctField.req_mem = lit "ReqMem"
header SacctField.req_tres = lit "ReqTRES"
header SacctField.alloc_tres = lit "AllocTRES"
header SacctField.node_list = lit "NodeList"
header SacctField.submit = lit "Submit"
header SacctField.start = lit "Start"
header SacctField.end = lit "End"
header SacctField.work_dir = lit "WorkDir"
header SacctField.batch_flag = lit "BatchFlag"
header SacctField.max_rss = lit "MaxRSS"

unfoldable pub width : SacctField → ℕ
width SacctField.job_id = 12
width SacctField.array_job_id = 10
width SacctField.array_task_id = 11
width SacctField.job_name = 10
width SacctField.partition = 9
width SacctField.user = 12
width SacctField.state = 10
width SacctField.reason = 16
width SacctField.exit_code = 8
width SacctField.elapsed = 11
width SacctField.alloc_cpus = 9
width SacctField.req_mem = 8
width SacctField.req_tres = 24
width SacctField.alloc_tres = 24
width SacctField.node_list = 12
width SacctField.submit = 19
width SacctField.start = 19
width SacctField.end = 19
width SacctField.work_dir = 24
width SacctField.batch_flag = 9
width SacctField.max_rss = 10

unfoldable pub right_align : SacctField → Bool
right_align SacctField.job_id = true
right_align SacctField.array_job_id = true
right_align SacctField.array_task_id = true
right_align SacctField.job_name = false
right_align SacctField.partition = false
right_align SacctField.user = false
right_align SacctField.state = false
right_align SacctField.reason = false
right_align SacctField.exit_code = true
right_align SacctField.elapsed = true
right_align SacctField.alloc_cpus = true
right_align SacctField.req_mem = true
right_align SacctField.req_tres = false
right_align SacctField.alloc_tres = false
right_align SacctField.node_list = false
right_align SacctField.submit = false
right_align SacctField.start = false
right_align SacctField.end = false
right_align SacctField.work_dir = false
right_align SacctField.batch_flag = true
right_align SacctField.max_rss = true

batch_flag_text : Bool → Text
unfolding lit
batch_flag_text true = lit "0"
batch_flag_text false = lit "1"

text_of {ℓ} : {A : Type ℓ} → (A → Text) → Option A → Text
text_of f none = []
text_of f (some a) = f a

-- `config` stands for the host's name and the GPU partitions.
unfoldable pub render : AppConfig → (now : ℤ) → JobRecord → SacctField → Text
unfolding display_job_id text_of state_str format_exit_status format_elapsed format_job_req_tres
    format_job_alloc_tres format_timestamp batch_flag_text is_gpu_partition show_nat show_int lit
render config now job SacctField.job_id = display_job_id job
render config now job SacctField.array_job_id = text_of show_nat job.array_job_id
render config now job SacctField.array_task_id = text_of show_int job.array_task_id
render config now job SacctField.job_name = job.name
render config now job SacctField.partition = job.partition
render config now job SacctField.user = job.user_name
render config now job SacctField.state = state_str job.state
render config now job SacctField.reason = unwrap_or [] job.state_reason
render config now job SacctField.exit_code = format_exit_status job
render config now job SacctField.elapsed = format_elapsed now job
render config now job SacctField.alloc_cpus =
    show_nat (saturating_mul job.requested_cpus job.requested_tasks)
render config now job SacctField.req_mem = show_nat job.requested_memory_mb ++ lit "M"
render config now job SacctField.req_tres = format_job_req_tres job
render config now job SacctField.alloc_tres = format_job_alloc_tres (is_gpu_partition config) job
render config now job SacctField.node_list =
    if state_eq job.state pending then [] else config.hostname
render config now job SacctField.submit = format_timestamp job.submit_time
render config now job SacctField.start = text_of format_timestamp job.start_time
render config now job SacctField.end = text_of format_timestamp job.end_time
render config now job SacctField.work_dir = job.cwd
render config now job SacctField.batch_flag = batch_flag_text job.allocation_only
render config now job SacctField.max_rss =
    text_of (λ value. show_nat value ++ lit "K") job.max_rss_kb

unfoldable pub columns_of : List SacctField → List TableColumn
unfolding header width right_align
columns_of [] = []
columns_of (f ∷ fs) =
    record { header = header f; width = width f; right_align = right_align f } ∷ columns_of fs

abbrev pub field_names : List (Text × SacctField)
field_names =
    (lit "jobid", SacctField.job_id)
    ∷ (lit "arrayjobid", SacctField.array_job_id)
    ∷ (lit "arraytaskid", SacctField.array_task_id)
    ∷ (lit "jobname", SacctField.job_name)
    ∷ (lit "partition", SacctField.partition)
    ∷ (lit "user", SacctField.user)
    ∷ (lit "state", SacctField.state)
    ∷ (lit "reason", SacctField.reason)
    ∷ (lit "exitcode", SacctField.exit_code)
    ∷ (lit "elapsed", SacctField.elapsed)
    ∷ (lit "alloccpus", SacctField.alloc_cpus)
    ∷ (lit "reqmem", SacctField.req_mem)
    ∷ (lit "reqtres", SacctField.req_tres)
    ∷ (lit "alloctres", SacctField.alloc_tres)
    ∷ (lit "nodelist", SacctField.node_list)
    ∷ (lit "submit", SacctField.submit)
    ∷ (lit "start", SacctField.start)
    ∷ (lit "end", SacctField.end)
    ∷ (lit "workdir", SacctField.work_dir)
    ∷ (lit "batchflag", SacctField.batch_flag)
    ∷ (lit "maxrss", SacctField.max_rss)
    ∷ []

abbrev field_codes : List (ℕ × SacctField)
field_codes =
    (b'i', SacctField.job_id)
    ∷ (b'F', SacctField.array_job_id)
    ∷ (b'K', SacctField.array_task_id)
    ∷ (b'j', SacctField.job_name)
    ∷ (b'P', SacctField.partition)
    ∷ (b'u', SacctField.user)
    ∷ (b't', SacctField.state)
    ∷ (b'T', SacctField.state)
    ∷ (b'R', SacctField.reason)
    ∷ (b'X', SacctField.exit_code)
    ∷ (b'M', SacctField.elapsed)
    ∷ (b'C', SacctField.alloc_cpus)
    ∷ (b'm', SacctField.req_mem)
    ∷ (b'b', SacctField.req_tres)
    ∷ (b'B', SacctField.alloc_tres)
    ∷ (b'N', SacctField.node_list)
    ∷ (b'V', SacctField.submit)
    ∷ (b'S', SacctField.start)
    ∷ (b'E', SacctField.end)
    ∷ (b'Z', SacctField.work_dir)
    ∷ []

parse_percent_sacct_fields : Text → Parsed (List SacctField)
unfolding parse_codes char_case lit
parse_percent_sacct_fields =
    parse_codes (char_case field_codes) (lit "unsupported sacct format code: %")

unfoldable pub parse_sacct_fields : Option Text → Parsed (List SacctField)
unfolding parse_percent_sacct_fields parse_names text_case contains_char lit
parse_sacct_fields none = parsed (
    SacctField.job_id ∷ SacctField.partition ∷ SacctField.job_name ∷ SacctField.user
    ∷ SacctField.state ∷ SacctField.exit_code ∷ [])
parse_sacct_fields (some spec) =
    if contains_char b'%' spec
    then parse_percent_sacct_fields spec
    else parse_names (text_case field_names) (lit "unsupported sacct field: ") spec

unfoldable pub print_sacct_jobs :
    AppConfig
    → (now : ℤ) → List JobRecord
    → List SacctField
    → (noheader : Bool) → Option (List Text)
unfolding render columns_of print_table
print_sacct_jobs config now jobs fields noheader =
    print_table (columns_of fields) (map (λ job. map (render config now job) fields) jobs) noheader

unfoldable pub print_sacct_jobs_delimited :
    AppConfig
    → (now : ℤ) → List JobRecord
    → List SacctField
    → (noheader : Bool) → (delimiter : Text) → List Text
unfolding render header join
print_sacct_jobs_delimited config now jobs fields noheader delimiter =
    (if noheader then [] else join delimiter (map header fields) ∷ [])
    ++ map (λ job. join delimiter (map (render config now job) fields)) jobs
