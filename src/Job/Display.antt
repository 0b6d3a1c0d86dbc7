-- ===== src/Job/Display.antt =====
-- src/model/display.rs: the texts that the listings show for a job.
use slotd.Prelude.{
  ℕ, ◌*◌, Bool, ◌&&◌, List, [], ◌∷◌, ◌++◌, Option, none, some, Text, lit, ltb, min, if◌then◌else◌,
  ℤ, pos,
}
use slotd.Strings.{show_nat, show_int, join, u32_max}
use slotd.Job.Defs.{JobRecord, state_eq, pending, unwrap_or}

-- `saturating_mul` of `u32`.
abbrev pub saturating_mul : ℕ → ℕ → ℕ
saturating_mul a b = min (a * b) u32_max

array_display : JobRecord → Option ℕ → Option ℤ → Text
unfolding lit
array_display job (some array_job_id) (some array_task_id) =
    show_nat array_job_id ++ lit "_" ++ show_int array_task_id
array_display job (some array_job_id) none = show_nat job.id
array_display job none _ = show_nat job.id

display : JobRecord → Option ℕ → Option ℕ → Text
unfolding lit array_display
display job (some parent_job_id) (some step_id) =
    show_nat parent_job_id ++ lit "." ++ show_nat step_id
display job (some parent_job_id) none = array_display job job.array_job_id job.array_task_id
display job none _ = array_display job job.array_job_id job.array_task_id

unfoldable pub display_job_id : JobRecord → Text
unfolding display
display_job_id job = display job job.parent_job_id job.step_id

unfoldable pub format_exit_status : JobRecord → Text
unfolding lit
format_exit_status job =
    show_int (unwrap_or (pos 0) job.exit_code)
    ++ lit ":"
    ++ show_int (unwrap_or (pos 0) job.term_signal)

base_tres : JobRecord → List Text
unfolding lit
base_tres job =
    (lit "cpu=" ++ show_nat (saturating_mul job.requested_cpus job.requested_tasks))
    ∷ (lit "mem=" ++ show_nat job.requested_memory_mb ++ lit "M")
    ∷ []

gpu_tres : JobRecord → Text
unfolding lit
gpu_tres job = lit "gres/gpu=" ++ show_nat job.requested_gpus

unfoldable pub format_job_req_tres : JobRecord → Text
unfolding lit base_tres gpu_tres
format_job_req_tres job =
    join (lit ",") (base_tres job ++ (if ltb 0 job.requested_gpus then gpu_tres job ∷ [] else []))

-- `is_gpu_partition` says whether the job's partition is one of the configuration's GPU partitions.
unfoldable pub format_job_alloc_tres : (is_gpu_partition : Text → Bool) → JobRecord → Text
unfolding lit base_tres gpu_tres
format_job_alloc_tres is_gpu_partition job = join (lit ",") (
    base_tres job
    ++ ((if state_eq job.state pending then [] else lit "node=1" ∷ [])
        ++ (if is_gpu_partition job.partition && ltb 0 job.requested_gpus
            then gpu_tres job ∷ []
            else [])))
