-- ===== src/Examples/Data.antt =====
-- The machine, the world and the requests of the examples. No code of the program is modelled here.
use slotd.Prelude.{true, false, [], ◌∷◌, none, some, pos, gives, lit}
use slotd.Config.{AppConfig}
use slotd.Job.{SubmitRequest, truncate}
use slotd.Store.{Store}
use slotd.Runtime.{World, Daemon}

abbrev pub machine : AppConfig
machine = record {
  jobs_dir = lit "/var/lib/slotd/jobs";
  hostname = lit "node";
  cancel_grace_secs = 5;
  total_cpus = 4;
  total_memory_mb = 8192;
  total_gpus = 2;
  gpu_model = lit "a100";
  notify_command = none;
  cgroup_base = none;
  features = [];
  cpu_partitions = lit "cpu" ∷ [];
  gpu_partitions = lit "gpu" ∷ [];
  default_partition = lit "cpu";
}

abbrev pub world : World
world = record {
  now = pos 1000;
  write_files = λ paths body. gives tt;
  open_outputs = λ job. gives tt;
  write_wrapper = λ job. gives tt;
  spawn = λ job gpus. gives (pos 4242);
  setup_cgroup = λ job pid. gives none;
  group_alive = λ pgid. gives true;
  wait_for_group_exit = λ pgid. gives tt;
  valid_signal = λ signal. true;
  try_wait = λ pid. gives none;
  wait = λ pid. gives (record { code = none; signal = some (pos 9) });
  oomed = λ path. false;
  read_status = λ path. none;
  rss_kb = λ pid. none;
  run_notify = λ command job. gives tt;
}

abbrev pub request : SubmitRequest
request = record {
  name = some (lit "train");
  user_name = lit "ana";
  partition = lit "cpu";
  cwd = lit "/home/ana";
  script_name = lit "train.sh";
  script_body = lit "#!/bin/sh";
  command_override = none;
  requested_cpus = 2;
  requested_tasks = 1;
  requested_memory_mb = 1024;
  requested_gpus = 0;
  allocation_only = false;
  dependency = none;
  array_spec = none;
  time_limit_secs = none;
  begin_time = none;
  exclusive = false;
  stdout_path = none;
  stderr_path = none;
  constraint = none;
  cpu_bind = none;
  export_env = [];
  open_mode = truncate;
  warning_signal = none;
  requeue = true;
}

abbrev pub idle : Store
idle = record { jobs = []; last_id = 0; config = machine }

abbrev pub first_daemon : Daemon
first_daemon = record { store = idle; runner = []; effects = [] }
