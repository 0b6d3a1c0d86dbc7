-- ===== src/Command/JobText.antt =====
-- `print_scontrol_job` of src/command/helpers.rs: the lines of `scontrol show job`.
use slotd.Prelude.{
  ℕ, List, [], ◌∷◌, ◌++◌, map, Option, none, some, Text, lit, ltb, if◌then◌else◌, ℤ, as_i64,
}
use slotd.Strings.{show_nat, show_int, join, is_empty}
use slotd.Job.{JobRecord, state_eq, pending, state_str, unwrap_or}
use slotd.Job.Display.{format_exit_status, format_job_req_tres, format_job_alloc_tres}
use slotd.Config.{AppConfig, is_gpu_partition}
use slotd.Util.Time.{format_timestamp, format_duration_secs}

unfoldable pub format_optional_timestamp : Option ℤ → Text
unfolding format_timestamp lit
format_optional_timestamp none = lit "Unknown"
format_optional_timestamp (some t) = format_timestamp t

or_null : Text → Text
unfolding is_empty lit
or_null path = if is_empty path then lit "(null)" else path

limit_text : Option ℕ → Text
unfolding format_duration_secs lit
limit_text none = lit "UNLIMITED"
limit_text (some value) = format_duration_secs (as_i64 value)

task_text : Option ℕ → Option ℤ → Text
unfolding show_nat show_int lit
task_text (some array_job_id) (some array_task_id) =
    show_nat array_job_id ++ lit "_" ++ show_int array_task_id
task_text (some array_job_id) none = lit "(null)"
task_text none _ = lit "(null)"

rss_text : Option ℕ → Text
unfolding show_nat lit
rss_text none = lit "(null)"
rss_text (some value) = show_nat value ++ lit "K"

step_text : JobRecord → Text
unfolding show_nat state_str lit
step_text step =
    show_nat (unwrap_or 0 step.step_id)
    ++ lit ":"
    ++ state_str step.state
    ++ lit ":"
    ++ step.command

steps_line : List JobRecord → List Text
unfolding join step_text lit
steps_line [] = []
steps_line (step ∷ steps) = (lit "   Steps=" ++ join (lit ", ") (map step_text (step ∷ steps))) ∷ []

head_line : JobRecord → Text
unfolding show_nat state_str lit
head_line entry =
    lit "JobId="
    ++ show_nat entry.id
    ++ lit " JobName="
    ++ entry.name
    ++ lit " UserId="
    ++ entry.user_name
    ++ lit "("
    ++ entry.user_name
    ++ lit ") Partition="
    ++ entry.partition
    ++ lit " State="
    ++ state_str entry.state
    ++ lit " Reason="
    ++ unwrap_or (lit "(null)") entry.state_reason

request_line : JobRecord → Text
unfolding show_nat limit_text format_optional_timestamp lit
request_line entry =
    lit "   NumTasks="
    ++ show_nat entry.requested_tasks
    ++ lit " CPUs/Task="
    ++ show_nat entry.requested_cpus
    ++ lit " ReqMem="
    ++ show_nat entry.requested_memory_mb
    ++ lit "MB ReqGRES="
    ++ (if ltb 0 entry.requested_gpus
        then lit "gpu:" ++ show_nat entry.requested_gpus
        else lit "(null)")
    ++ lit " TimeLimit="
    ++ limit_text entry.time_limit_secs
    ++ lit " BeginTime="
    ++ format_optional_timestamp entry.begin_time
    ++ lit " Dependency="
    ++ unwrap_or (lit "(null)") entry.dependency
    ++ lit " Exclusive="
    ++ (if entry.exclusive then lit "Yes" else lit "No")

times_line : JobRecord → Text
unfolding format_timestamp format_optional_timestamp format_exit_status task_text lit
times_line entry =
    lit "   SubmitTime="
    ++ format_timestamp entry.submit_time
    ++ lit " StartTime="
    ++ format_optional_timestamp entry.start_time
    ++ lit " EndTime="
    ++ format_optional_timestamp entry.end_time
    ++ lit " ExitCode="
    ++ format_exit_status entry
    ++ lit " ArrayTask="
    ++ task_text entry.array_job_id entry.array_task_id
    ++ lit " BatchFlag="
    ++ (if entry.allocation_only then lit "0" else lit "1")

paths_line : AppConfig → JobRecord → Text
unfolding or_null lit
paths_line config entry =
    lit "   WorkDir="
    ++ entry.cwd
    ++ lit " Command="
    ++ entry.command
    ++ lit " StdOut="
    ++ or_null entry.stdout_path
    ++ lit " StdErr="
    ++ or_null entry.stderr_path
    ++ lit " NodeList="
    ++ (if state_eq entry.state pending then lit "(null)" else config.hostname)

resources_line : AppConfig → JobRecord → Text
unfolding format_job_req_tres format_job_alloc_tres is_gpu_partition rss_text lit
resources_line config entry =
    lit "   ReqTRES="
    ++ format_job_req_tres entry
    ++ lit " AllocTRES="
    ++ format_job_alloc_tres (is_gpu_partition config) entry
    ++ lit " MaxRSS="
    ++ rss_text entry.max_rss_kb

unfoldable pub print_scontrol_job : AppConfig → JobRecord → (steps : List JobRecord) → List Text
unfolding head_line request_line times_line paths_line resources_line steps_line
print_scontrol_job config entry steps =
    head_line entry
    ∷ request_line entry
    ∷ times_line entry
    ∷ paths_line config entry
    ∷ resources_line config entry
    ∷ steps_line steps
