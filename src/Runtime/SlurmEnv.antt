-- ===== src/Runtime/SlurmEnv.antt =====
-- src/runtime/slurm_env.rs: the variables that a job's process gets. `Command::env` sets one variable, the
-- others stay.
use slotd.Prelude.{ℕ, Option, none, some, Text, lit, if◌then◌else◌, ◌==◌}
use slotd.Strings.{show_nat, show_int}
use slotd.Config.{AppConfig}
use slotd.Job.{JobRecord, unwrap_or}
use slotd.Util.Env.{Env, upsert_env_pair}

unfoldable pub at_least_one : ℕ → ℕ
at_least_one n = if n == 0 then 1 else n

unfoldable pub job_id_of : JobRecord → ℕ
job_id_of found = unwrap_or found.id found.parent_job_id

-- `if let Some(…) = … { command.env(…) }`.
unfoldable pub set_some : Text → Option Text → Env → Env
unfolding upsert_env_pair
set_some name none env = env
set_some name (some value) env = upsert_env_pair env name value

unfoldable pub shown : {A : Type 0} → (A → Text) → Option A → Option Text
shown show none = none
shown show (some a) = some (show a)

unfoldable pub apply_slurm_env : AppConfig → JobRecord → Env → Env
unfolding upsert_env_pair set_some shown at_least_one job_id_of show_nat show_int lit
apply_slurm_env config found command =
    let with_id = upsert_env_pair command (lit "SLURM_JOB_ID") (show_nat (job_id_of found)) in
    let with_name = upsert_env_pair with_id (lit "SLURM_JOB_NAME") found.name in
    let with_partition = upsert_env_pair with_name (lit "SLURM_JOB_PARTITION") found.partition in
    let with_nodes = upsert_env_pair with_partition (lit "SLURM_JOB_NODELIST") config.hostname in
    let with_dir = upsert_env_pair with_nodes (lit "SLURM_SUBMIT_DIR") found.cwd in
    let with_tasks =
      upsert_env_pair with_dir (lit "SLURM_NTASKS")
        (show_nat (at_least_one found.requested_tasks)) in
    let with_cpus =
      upsert_env_pair with_tasks (lit "SLURM_CPUS_PER_TASK") (show_nat found.requested_cpus) in
    let with_array =
      set_some (lit "SLURM_ARRAY_JOB_ID") (shown show_nat found.array_job_id) with_cpus in
    let with_task =
      set_some (lit "SLURM_ARRAY_TASK_ID") (shown show_int found.array_task_id) with_array in
    upsert_env_pair with_task (lit "SLURM_STEP_ID") (show_nat (unwrap_or 0 found.step_id))
