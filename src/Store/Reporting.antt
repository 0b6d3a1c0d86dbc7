-- ===== src/Store/Reporting.antt =====
-- src/store/partition_stats.rs, partition_reporting.rs and node_reporting.rs, with
-- `partition_state` and `partition_gres_used` of src/store/support.rs.
use slotd.Prelude.{
  ℕ, Bool, ◌&&◌, List, [], ◌∷◌, ◌++◌, map, some, Text, lit, leb, ◌==◌, if◌then◌else◌, keep, length,
  sort_by, Result, ok, ◌>>=◌, collect,
}
use slotd.Strings.{text_eq, show_nat, join}
use slotd.Config.{is_gpu_partition, format_features, active_partitions}
use slotd.Job.{JobState, state_eq, running, pending, PartitionInfo, NodeInfo}
use slotd.Store.Table.{Store, is_top_level}
use slotd.Store.Usage.{running_usage_totals, gpu_ids_in_use}

unfoldable pub partition_state : Bool → ℕ → ℕ → ℕ → ℕ → Text
partition_state is_gpu allocated_cpus allocated_gpus total_cpus total_gpus =
    if is_gpu
    then (if allocated_gpus == 0
        then lit "idle"
        else if leb total_gpus allocated_gpus
        then lit "alloc"
        else lit "mix")
    else if allocated_cpus == 0
    then lit "idle"
    else if leb total_cpus allocated_cpus
    then lit "alloc"
    else lit "mix"

unfoldable pub index_list : List ℕ → Text
index_list [] = lit "IDX:N/A"
index_list (i ∷ is') = lit "IDX:" ++ join (lit ",") (map show_nat (i ∷ is'))

unfoldable pub partition_gres_used : Bool → Text → ℕ → List ℕ → Text
unfolding index_list
partition_gres_used is_gpu gpu_model total_gpus ids =
    if is_gpu
    then lit "gpu:"
      ++ (gpu_model
          ++ (lit ":" ++ (show_nat total_gpus ++ (lit "(" ++ (index_list ids ++ lit ")")))))
    else lit "N/A"

pub record PartitionStats : Type 0 where
  pub allocated_cpus : ℕ
  pub allocated_memory_mb : ℕ
  pub allocated_gpus : ℕ
  pub running_jobs : ℕ
  pub pending_jobs : ℕ
  pub used_gpu_ids : List ℕ

unfoldable pub count_top_level_jobs_in_partition : Text → JobState → Store → ℕ
unfolding keep
count_top_level_jobs_in_partition partition state s =
    length
      (keep (λ j. text_eq j.partition partition && state_eq j.state state && is_top_level j) s.jobs)

unfoldable pub load_partition_stats : Text → Store → Result PartitionStats
unfolding running_usage_totals sort_by
load_partition_stats partition s = do
  used ← running_usage_totals (some partition) s
  ok (record {
    allocated_cpus = used.0;
    allocated_memory_mb = used.1;
    allocated_gpus = used.2;
    running_jobs = count_top_level_jobs_in_partition partition running s;
    pending_jobs = count_top_level_jobs_in_partition partition pending s;
    used_gpu_ids = sort_by leb (gpu_ids_in_use (some partition) s);
  })

unfoldable pub partition_info : Store → Text → Result PartitionInfo
unfolding load_partition_stats
partition_info s partition = do
  stats ← load_partition_stats partition s
  let is_gpu = is_gpu_partition s.config partition
  ok (record {
    name = partition;
    hostname = s.config.hostname;
    state =
        partition_state is_gpu stats.allocated_cpus stats.allocated_gpus s.config.total_cpus
          s.config.total_gpus;
    gres_used =
        partition_gres_used is_gpu s.config.gpu_model s.config.total_gpus stats.used_gpu_ids;
    features = format_features s.config partition;
    total_cpus = s.config.total_cpus;
    total_memory_mb = s.config.total_memory_mb;
    total_gpus = if is_gpu then s.config.total_gpus else 0;
    allocated_cpus = stats.allocated_cpus;
    allocated_memory_mb = stats.allocated_memory_mb;
    allocated_gpus = stats.allocated_gpus;
    running_jobs = stats.running_jobs;
    pending_jobs = stats.pending_jobs;
  })

unfoldable pub node_info : Store → Result NodeInfo
unfolding partition_info collect
node_info s = do
  partitions ← collect (partition_info s) (active_partitions s.config)
  ok (record { partitions = partitions })
