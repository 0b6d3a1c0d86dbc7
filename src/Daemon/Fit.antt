-- ===== src/Daemon/Fit.antt =====
-- `resources_fit` of src/runtime/daemon.rs.
use slotd.Prelude.{ℕ, Bool, false, ◌&&◌, Text, leb, ◌==◌, if◌then◌else◌, Result, ok, ◌>>=◌}
use slotd.Config.{is_gpu_partition}
use slotd.Job.Display.{saturating_mul}
use slotd.Store.{Store, any_running_exclusive_job, any_running_top_level_job, available_resources}

-- What a job or a request asks for.
pub record Demand : Type 0 where
  pub partition : Text
  pub requested_cpus : ℕ
  pub requested_tasks : ℕ
  pub requested_memory_mb : ℕ
  pub requested_gpus : ℕ
  pub exclusive : Bool

unfoldable pub enough_gpus : Store → Demand → ℕ → Bool
enough_gpus s d available_gpus =
    if is_gpu_partition s.config d.partition
    then leb d.requested_gpus available_gpus
    else d.requested_gpus == 0

unfoldable pub enough : Store → Demand → ℕ × ℕ × ℕ → Bool
unfolding enough_gpus
enough s d (available_cpus, available_memory_mb, available_gpus) =
    leb (saturating_mul d.requested_cpus d.requested_tasks) available_cpus
    && leb d.requested_memory_mb available_memory_mb
    && enough_gpus s d available_gpus

unfoldable pub resources_fit : Store → Demand → Result Bool
unfolding enough
resources_fit s d =
    if any_running_exclusive_job s
    then ok false
    else if d.exclusive && any_running_top_level_job s
    then ok false
    else (available_resources s >>= λ a. ok (enough s d a))
