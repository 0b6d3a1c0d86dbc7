-- ===== src/Runtime/Runner.antt =====
-- src/runtime/runner.rs and runner_launch.rs.
use slotd.Prelude.{
  ℕ, false, List, [], ◌∷◌, ◌++◌, Option, none, some, Text, lit, ◌==◌, if◌then◌else◌, ℤ, pos, leb_ℤ,
  max, Result, ok, message, ok_or,
}
use slotd.Strings.{is_empty, show_nat}
use slotd.Config.{AppConfig, is_gpu_partition}
use slotd.Job.{JobRecord, unwrap_or}
use slotd.Job.Display.{saturating_mul}
use slotd.Submit.Pattern.{join_path}
use slotd.Store.{Store, allocate_gpu_ids, mark_running}
use slotd.Runtime.State.{
  World, RunningJob, child, adopted, insert_running, remove_running, spawned, M, ask, ◌>>=◌, ◌>>◌,
  pure, lift, read, on_store, on_runner, emit,
}
use slotd.Runtime.CpuBind.{resolve_cpu_bind_ids}

-- The text of a path up to its last `/`, which a name is joined to.
unfoldable pub parent_dir : Text → Text
parent_dir [] = []
parent_dir (c ∷ s) = joined c (parent_dir s)
  where
    joined : ℕ → Text → Text
    joined c [] = if c == b'/' then c ∷ [] else []
    joined c (d ∷ t) = c ∷ d ∷ t

unfoldable pub job_status_path : JobRecord → Option Text
unfolding parent_dir
job_status_path job =
    if is_empty job.script_path
    then none
    else some (join_path (parent_dir job.script_path) (lit "exit_status"))

unfoldable pub assigned_gpus : JobRecord → Store → Result (List ℕ)
assigned_gpus job s =
    if is_gpu_partition s.config job.partition then allocate_gpu_ids job.requested_gpus s else ok []

unfoldable pub requested_slots : JobRecord → ℕ
requested_slots job = max (saturating_mul job.requested_cpus job.requested_tasks) 1

abbrev started : ℤ → Option Text → Option Text → RunningJob
started pid cgroup_path status_path = record {
  pgid = pid;
  pid = pid;
  cgroup_path = cgroup_path;
  status_path = status_path;
  warning_signal_sent = false;
  handle = child;
}

unfoldable pub launch_running_job : World → JobRecord → M RunningJob
launch_running_job w job = do
  ask (w.open_outputs job)
  chosen ← read (assigned_gpus job)
  assigned ← lift chosen
  status_path ←
      lift (ok_or (job_status_path job) (message (lit "missing script path for daemon job")))
  ask (w.write_wrapper job)
  total_cpus ← read (λ s. s.config.total_cpus)
  cpu_ids ← lift (resolve_cpu_bind_ids job.cpu_bind total_cpus (requested_slots job))
  pid ← ask (w.spawn job assigned)
  emit (spawned job.id pid)
  cgroup_path ← ask (w.setup_cgroup job pid)
  on_store (mark_running job.id pid pid assigned w.now)
  pure (started pid cgroup_path (some status_path))

unfoldable pub launch : World → JobRecord → M (Unit {0})
unfolding launch_running_job
launch w job = do running ← launch_running_job w job; on_runner (insert_running job.id running)

unfoldable pub job_cgroup_path : AppConfig → ℕ → Option Text
job_cgroup_path c job_id = elim c.cgroup_base [
  | none ↦ none
  | some base ↦ some (join_path base (lit "slotd-" ++ show_nat job_id))
]

abbrev pub or_pid : Option ℤ → Option ℤ → Option ℤ
or_pid none b = b
or_pid (some a) b = some a

unfoldable pub adopted_job : JobRecord → ℤ → AppConfig → RunningJob
unfolding job_cgroup_path
adopted_job job pgid c = record {
  pgid = pgid;
  pid = unwrap_or (pos 0) job.pid;
  cgroup_path = job_cgroup_path c job.id;
  status_path = job_status_path job;
  warning_signal_sent = false;
  handle = adopted;
}

unfoldable pub adopt_group : JobRecord → ℤ → M (Unit {0})
unfolding adopted_job
adopt_group job pgid = if leb_ℤ pgid (pos 0) then pure tt else (do
  running ← read (λ s. adopted_job job pgid s.config)
  on_runner (insert_running job.id running))

unfoldable pub adopt : JobRecord → M (Unit {0})
unfolding adopt_group
adopt job = adopt_group job (unwrap_or (pos 0) (or_pid job.pgid job.pid))

unfoldable pub forget : ℕ → M (Unit {0})
forget job_id = on_runner (remove_running job_id)
