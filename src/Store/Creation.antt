-- ===== src/Store/Creation.antt =====
-- src/store/job_creation.rs, job_paths.rs, array_creation.rs and step_creation.rs. What the writes
-- of directories and scripts come to is the parameter `write_files`, a function of the paths.
use slotd.Prelude.{
  ◌%◌, ◌^◌, ℕ, suc, false, ◌||◌, not, List, [], ◌∷◌, ◌++◌, Option, none, some, Text, lit, leb,
  if◌then◌else◌, ℤ, pos, keep, length, max, Result, ok, err, diverges, message, sqlite, Answer,
  gives, refuses,
}
use slotd.Strings.{show_nat, split, is_empty, text_eq, i64_max}
use slotd.Config.{AppConfig}
use slotd.Job.{JobRecord, SubmitRequest, pending, running, unwrap_or, truncate}
use slotd.Submit.Pattern.{
  Names, expand_output_pattern, resolve_log_path, join_path, default_batch_output_pattern,
}
use slotd.Submit.ArraySpec.{ArraySpec, parse_array_spec}
use slotd.Store.Table.{Store, update_job, get_job, opt_eq}

pub record JobPaths : Type 0 where
  pub script_path : Text
  pub stdout_path : Text
  pub stderr_path : Text

last_name : Text → List Text → Text
last_name name [] = name
last_name name (n ∷ ns) = last_name n ns

-- `Path::file_name` or "batch-job": the last component that is a name.
unfoldable pub default_name : Text → Text
unfolding keep last_name
default_name script_name =
    let name =
      last_name [] (keep (λ c. not (is_empty c || text_eq c (lit "."))) (split b'/' script_name)) in
    if is_empty name || text_eq name (lit "..") then lit "batch-job" else name

unfoldable pub script_command : Text → Text
script_command script_name = lit "bash " ++ script_name

unfoldable pub default_output_pattern : Option ℤ → Text
default_output_pattern none = default_batch_output_pattern
default_output_pattern (some array_task_id) = lit "slurm-%A_%a.out"

unfoldable pub resolve_output_path : SubmitRequest → Names → Text → Text
resolve_output_path request names pattern =
    resolve_log_path request.cwd (expand_output_pattern names pattern)

abbrev stderr_or : (Text → Text) → Option Text → Text → Text
stderr_or resolve none stdout = stdout
stderr_or resolve (some pattern) stdout = resolve pattern

-- The paths of `prepare_job_paths`.
unfoldable pub job_paths : AppConfig → SubmitRequest → Text → Names → JobPaths
unfolding resolve_output_path
job_paths config request default_pattern names =
    let job_dir = join_path config.jobs_dir (show_nat names.job_id) in
    let stdout =
      resolve_output_path request names (unwrap_or default_pattern request.stdout_path) in
    record {
      script_path = join_path job_dir (lit "script.sh");
      stdout_path = stdout;
      stderr_path = stderr_or (resolve_output_path request names) request.stderr_path stdout;
    }

-- Where a job stands in its array.
pub record ArrayPlace : Type 0 where
  pub array_job_id : Option ℕ
  pub array_task_id : Option ℤ
  pub array_task_count : Option ℕ
  pub array_task_limit : Option ℕ

abbrev pub no_array : ArrayPlace
no_array = record {
  array_job_id = none;
  array_task_id = none;
  array_task_count = none;
  array_task_limit = none;
}

-- The row of the INSERT of `create_job_entry`.
unfoldable pub new_row : ℕ → SubmitRequest → ArrayPlace → Text → ℤ → JobRecord
new_row id r a resolved_name now = record {
  id = id;
  parent_job_id = none;
  step_id = none;
  held = false;
  priority = pos 0;
  name = resolved_name;
  user_name = r.user_name;
  state = pending;
  partition = r.partition;
  command = unwrap_or (script_command r.script_name) r.command_override;
  cwd = r.cwd;
  requested_cpus = r.requested_cpus;
  requested_tasks = r.requested_tasks;
  requested_memory_mb = r.requested_memory_mb;
  requested_gpus = r.requested_gpus;
  allocation_only = r.allocation_only;
  dependency = r.dependency;
  array_job_id = a.array_job_id;
  array_task_id = a.array_task_id;
  array_task_count = a.array_task_count;
  array_task_limit = a.array_task_limit;
  max_rss_kb = none;
  submit_time = now;
  start_time = none;
  end_time = none;
  pid = none;
  pgid = none;
  exit_code = none;
  state_reason = some (lit "Resources");
  term_signal = none;
  time_limit_secs = r.time_limit_secs;
  begin_time = r.begin_time;
  exclusive = r.exclusive;
  assigned_gpu_ids = [];
  script_path = [];
  stdout_path = [];
  stderr_path = [];
  constraint = r.constraint;
  cpu_bind = r.cpu_bind;
  export_env = r.export_env;
  open_mode = r.open_mode;
  warning_signal = r.warning_signal;
  requeue = r.requeue;
  requeue_count = 0;
}

-- INSERT: the id after the last one ever given.
unfoldable pub insert_row : (ℕ → JobRecord) → Store → Store
insert_row row s = record s { jobs = s.jobs ++ (row (suc s.last_id) ∷ []); last_id = suc s.last_id }

module _ (write_files : JobPaths → Text → Answer (Unit {0})) (now : ℤ) where
  unfoldable pub set_paths : JobPaths → JobRecord → JobRecord
  set_paths p j = record j {
    script_path = p.script_path;
    stdout_path = p.stdout_path;
    stderr_path = p.stderr_path;
  }

  unfoldable pub after_files : Answer (Unit {0}) → JobPaths → ℕ → Store → Result ℕ × Store
  unfolding set_paths
  after_files (gives _) p job_id s = (ok job_id, update_job job_id (set_paths p) s)
  after_files (refuses e) p job_id s = (err e, s)

  -- The row stays when its files cannot be written. SQLite takes no memory size over `i64::MAX`.
  unfoldable pub create_job_entry : SubmitRequest → ArrayPlace → Text → Store → Result ℕ × Store
  unfolding after_files insert_row
  create_job_entry r a resolved_name s =
      let job_id = suc s.last_id in
      let paths = job_paths s.config r (default_output_pattern a.array_task_id) (record {
        job_id = job_id;
        job_name = resolved_name;
        user_name = r.user_name;
        hostname = s.config.hostname;
        array_job_id = a.array_job_id;
        array_task_id = a.array_task_id;
      }) in
      let inserted = insert_row (λ id. new_row id r a resolved_name now) s in
      if leb r.requested_memory_mb i64_max
      then after_files (write_files paths r.script_body) paths job_id inserted
      else (err (sqlite (lit "integer out of range")), s)

  -- The first task's id names the array.
  unfoldable pub name_array : Option ℕ → ℕ → Store → Store
  name_array none job_id s = update_job job_id (λ j. record j { array_job_id = some job_id }) s
  name_array (some array_job_id) job_id s = s

  unfoldable pub then_task :
      Option ℕ
      → Result ℕ × Store
      → (Option ℕ → Store → Result (Option ℕ) × Store)
      → Result (Option ℕ) × Store
  unfolding name_array
  then_task array_job_id (ok job_id, s) next =
      next (some (unwrap_or job_id array_job_id)) (name_array array_job_id job_id s)
  then_task array_job_id (err e, s) next = (err e, s)
  then_task array_job_id (diverges, s) next = (diverges, s)

  unfoldable pub create_tasks :
      SubmitRequest → ℕ → Option ℕ → Text → Option ℕ → List ℤ → Store → Result (Option ℕ) × Store
  unfolding then_task
  create_tasks r count limit base_name array_job_id [] s = (ok array_job_id, s)
  create_tasks r count limit base_name array_job_id (task_id ∷ ids) s =
      then_task array_job_id
        (create_job_entry r
          (record {
            array_job_id = array_job_id;
            array_task_id = some task_id;
            array_task_count = some count;
            array_task_limit = limit;
          })
          base_name s)
        (λ first s'. create_tasks r count limit base_name first ids s')

  unfoldable pub first_task : Result (Option ℕ) × Store → Result ℕ × Store
  first_task (ok none, s) = (err (message (lit "array specification produced no jobs")), s)
  first_task (ok (some id), s) = (ok id, s)
  first_task (err e, s) = (err e, s)
  first_task (diverges, s) = (diverges, s)

  abbrev pub request_name : SubmitRequest → Text
  request_name r = unwrap_or (default_name r.script_name) r.name

  unfoldable pub create_parsed : SubmitRequest → Result ArraySpec → Store → Result ℕ × Store
  unfolding create_tasks first_task
  create_parsed r (ok spec) s =
      first_task
        (create_tasks r (length spec.task_ids) spec.limit (request_name r) none spec.task_ids s)
  create_parsed r (err e) s = (err e, s)
  create_parsed r diverges s = (diverges, s)

  unfoldable pub create_array_jobs : SubmitRequest → Text → Store → Result ℕ × Store
  unfolding create_parsed
  create_array_jobs r spec s = create_parsed r (parse_array_spec spec) s

  unfoldable pub create_by_spec : SubmitRequest → Option Text → Store → Result ℕ × Store
  unfolding create_array_jobs create_job_entry
  create_by_spec r (some spec) s = create_array_jobs r spec s
  create_by_spec r none s = create_job_entry r no_array (request_name r) s

  unfoldable pub create_job : SubmitRequest → Store → Result ℕ × Store
  unfolding create_by_spec
  create_job r s = create_by_spec r r.array_spec s

-- `COALESCE(MAX(step_id), -1) + 1`.
unfoldable pub after_step : Option ℕ → ℕ
after_step none = 0
after_step (some n) = suc n

unfoldable pub after_steps : ℕ → List JobRecord → ℕ
unfolding after_step
after_steps parent [] = 0
after_steps parent (j ∷ js) =
    max (if opt_eq j.parent_job_id parent then after_step j.step_id else 0) (after_steps parent js)

-- `(current + 1).max(0) as u32`.
unfoldable pub next_step_id : ℕ → List JobRecord → ℕ
unfolding after_steps
next_step_id parent js = after_steps parent js % 2 ^ 32

unfoldable pub step_row : JobRecord → ℕ → Text → Text → Text → Text → ℤ → ℕ → JobRecord
step_row parent step name command cwd user_name now id = record {
  id = id;
  parent_job_id = some parent.id;
  step_id = some step;
  held = false;
  priority = pos 0;
  name = name;
  user_name = user_name;
  state = running;
  partition = parent.partition;
  command = command;
  cwd = cwd;
  requested_cpus = parent.requested_cpus;
  requested_tasks = parent.requested_tasks;
  requested_memory_mb = parent.requested_memory_mb;
  requested_gpus = parent.requested_gpus;
  allocation_only = false;
  dependency = none;
  array_job_id = none;
  array_task_id = none;
  array_task_count = none;
  array_task_limit = none;
  max_rss_kb = none;
  submit_time = now;
  start_time = some now;
  end_time = none;
  pid = none;
  pgid = none;
  exit_code = none;
  state_reason = none;
  term_signal = none;
  time_limit_secs = none;
  begin_time = none;
  exclusive = false;
  assigned_gpu_ids = [];
  script_path = [];
  stdout_path = [];
  stderr_path = [];
  constraint = none;
  cpu_bind = none;
  export_env = [];
  open_mode = truncate;
  warning_signal = none;
  requeue = false;
  requeue_count = 0;
}

unfoldable pub create_step : ℕ → Text → Text → Text → Text → ℤ → Store → Result ℕ × Store
unfolding next_step_id step_row insert_row
create_step parent_job_id name command cwd user_name now s = elim (get_job s parent_job_id) [
  | none ↦ (err (message (lit "parent job " ++ (show_nat parent_job_id ++ lit " not found"))), s)
  | some parent ↦ (
    ok (suc s.last_id),
    insert_row (step_row parent (next_step_id parent_job_id s.jobs) name command cwd user_name now)
        s,
  )
]
