-- ===== src/Format/Listings.antt =====
-- The lines of `squeue`, `sacct` and `sinfo`: src/format/squeue.rs, sacct.rs and sinfo.rs.
use slotd.Prelude.{
  ℕ, ◌≤◌, ◌≡◌, refl, Bool, false, List, [], ◌∷◌, Option, Text, length, All, arith, ℤ,
}
use slotd.Job.{JobRecord, PartitionInfo}
use slotd.Config.{AppConfig}
use slotd.Format.Lines.{IsShown, IsTable, print_table-rows}
use slotd.Format.Squeue
use slotd.Format.Sacct
use slotd.Format.Sinfo

squeue_column : (f : Squeue.SqueueField) → 1 ≤ Squeue.width f
unfolding Squeue.width
squeue_column Squeue.SqueueField.job_id = omega arith
squeue_column Squeue.SqueueField.partition = omega arith
squeue_column Squeue.SqueueField.name = omega arith
squeue_column Squeue.SqueueField.user = omega arith
squeue_column Squeue.SqueueField.state_compact = omega arith
squeue_column Squeue.SqueueField.time = omega arith
squeue_column Squeue.SqueueField.time_limit = omega arith
squeue_column Squeue.SqueueField.num_tasks = omega arith
squeue_column Squeue.SqueueField.req_cpus = omega arith
squeue_column Squeue.SqueueField.req_mem = omega arith
squeue_column Squeue.SqueueField.req_gpus = omega arith
squeue_column Squeue.SqueueField.start_time = omega arith
squeue_column Squeue.SqueueField.node_list_reason = omega arith

squeue-IsShown :
    (fields : List Squeue.SqueueField)
    → All IsShown (Squeue.columns_of fields) × (length (Squeue.columns_of fields) ≡ length fields)
unfolding Squeue.columns_of
squeue-IsShown [] = (tt, refl)
squeue-IsShown (f ∷ fs) =
    ((squeue_column f, (squeue-IsShown fs).0), omega (arith, (squeue-IsShown fs).1))

sacct_column : (f : Sacct.SacctField) → 1 ≤ Sacct.width f
unfolding Sacct.width
sacct_column Sacct.SacctField.job_id = omega arith
sacct_column Sacct.SacctField.array_job_id = omega arith
sacct_column Sacct.SacctField.array_task_id = omega arith
sacct_column Sacct.SacctField.job_name = omega arith
sacct_column Sacct.SacctField.partition = omega arith
sacct_column Sacct.SacctField.user = omega arith
sacct_column Sacct.SacctField.state = omega arith
sacct_column Sacct.SacctField.reason = omega arith
sacct_column Sacct.SacctField.exit_code = omega arith
sacct_column Sacct.SacctField.elapsed = omega arith
sacct_column Sacct.SacctField.alloc_cpus = omega arith
sacct_column Sacct.SacctField.req_mem = omega arith
sacct_column Sacct.SacctField.req_tres = omega arith
sacct_column Sacct.SacctField.alloc_tres = omega arith
sacct_column Sacct.SacctField.node_list = omega arith
sacct_column Sacct.SacctField.submit = omega arith
sacct_column Sacct.SacctField.start = omega arith
sacct_column Sacct.SacctField.end = omega arith
sacct_column Sacct.SacctField.work_dir = omega arith
sacct_column Sacct.SacctField.batch_flag = omega arith
sacct_column Sacct.SacctField.max_rss = omega arith

sacct-IsShown :
    (fields : List Sacct.SacctField)
    → All IsShown (Sacct.columns_of fields) × (length (Sacct.columns_of fields) ≡ length fields)
unfolding Sacct.columns_of
sacct-IsShown [] = (tt, refl)
sacct-IsShown (f ∷ fs) =
    ((sacct_column f, (sacct-IsShown fs).0), omega (arith, (sacct-IsShown fs).1))

sinfo_column : (f : Sinfo.SinfoField) → 1 ≤ Sinfo.width f
unfolding Sinfo.width
sinfo_column Sinfo.SinfoField.partition = omega arith
sinfo_column Sinfo.SinfoField.hostnames = omega arith
sinfo_column Sinfo.SinfoField.state = omega arith
sinfo_column Sinfo.SinfoField.gres_used = omega arith
sinfo_column Sinfo.SinfoField.features = omega arith
sinfo_column Sinfo.SinfoField.cpus = omega arith
sinfo_column Sinfo.SinfoField.cpus_load = omega arith
sinfo_column Sinfo.SinfoField.memory = omega arith
sinfo_column Sinfo.SinfoField.memory_allocated = omega arith
sinfo_column Sinfo.SinfoField.gpus = omega arith
sinfo_column Sinfo.SinfoField.gpus_allocated = omega arith
sinfo_column Sinfo.SinfoField.running_jobs = omega arith
sinfo_column Sinfo.SinfoField.pending_jobs = omega arith

sinfo-IsShown :
    (fields : List Sinfo.SinfoField)
    → All IsShown (Sinfo.columns_of fields) × (length (Sinfo.columns_of fields) ≡ length fields)
unfolding Sinfo.columns_of
sinfo-IsShown [] = (tt, refl)
sinfo-IsShown (f ∷ fs) =
    ((sinfo_column f, (sinfo-IsShown fs).0), omega (arith, (sinfo-IsShown fs).1))

-- `squeue`, whichever of `--start` and `--array` is given, prints a line for each job, behind a header
-- line unless `--noheader` is given, whatever the fields, the start times and the texts of the jobs are, and
-- all its lines have the same number of characters: the widths of the fields and the bars between them.
pub print_squeue_jobs-IsTable :
    (hostname : Text) (now : ℤ) (jobs : List JobRecord) (fields : List Squeue.SqueueField)
    (start_times : ℕ → Option Text) (noheader array_mode : Bool)
    → IsTable
        (Squeue.columns_of fields)
        (length jobs)
        noheader
        (Squeue.print_squeue_jobs hostname now jobs fields noheader)
      × IsTable
          (Squeue.columns_of fields)
          (length jobs)
          noheader
          (Squeue.print_squeue_jobs_with_options hostname now jobs fields noheader array_mode)
      × IsTable (Squeue.columns_of fields) (length jobs) noheader (
          Squeue.print_squeue_jobs_with_start_times hostname now jobs fields start_times noheader
            array_mode)
unfolding Squeue.print_squeue_jobs Squeue.print_squeue_jobs_with_options
    Squeue.print_squeue_jobs_with_start_times
print_squeue_jobs-IsTable hostname now jobs fields start_times noheader array_mode =
    let table : (mode : Bool)
        → IsTable (Squeue.columns_of fields) (length jobs) noheader
            (Squeue.print_squeue_jobs_with_options hostname now jobs fields noheader mode) =
      λ mode.
        print_table-rows (Squeue.columns_of fields) (Squeue.option_cell hostname now mode) fields
          jobs noheader (squeue-IsShown fields) in
    (
      table false,
      table array_mode,
      print_table-rows (Squeue.columns_of fields)
          (Squeue.start_cell hostname now array_mode start_times) fields jobs noheader
          (squeue-IsShown fields),
    )

-- The tables of `sacct` and of `sinfo`, by partition and by node, have a line for each row, behind a
-- header line unless it is left out, and all lines of a table have the same number of characters.
pub print_sacct_jobs-IsTable :
    (config : AppConfig) (now : ℤ) (jobs : List JobRecord) (sacct_fields : List Sacct.SacctField)
    (default : Text) (partitions : List PartitionInfo) (rows : List Sinfo.NodeSinfoRow)
    (sinfo_fields : List Sinfo.SinfoField) (noheader : Bool)
    → IsTable
        (Sacct.columns_of sacct_fields)
        (length jobs)
        noheader
        (Sacct.print_sacct_jobs config now jobs sacct_fields noheader)
      × IsTable
          (Sinfo.columns_of sinfo_fields)
          (length partitions)
          noheader
          (Sinfo.print_sinfo default partitions sinfo_fields noheader)
      × IsTable
          (Sinfo.columns_of sinfo_fields)
          (length rows)
          noheader
          (Sinfo.print_sinfo_nodes rows sinfo_fields noheader)
unfolding Sacct.print_sacct_jobs Sinfo.print_sinfo Sinfo.print_sinfo_nodes
print_sacct_jobs-IsTable config now jobs sacct_fields default partitions rows sinfo_fields
      noheader =
    (
      print_table-rows (Sacct.columns_of sacct_fields) (Sacct.render config now) sacct_fields jobs
          noheader (sacct-IsShown sacct_fields),
      print_table-rows (Sinfo.columns_of sinfo_fields) (Sinfo.render default) sinfo_fields
          partitions noheader (sinfo-IsShown sinfo_fields),
      print_table-rows (Sinfo.columns_of sinfo_fields) Sinfo.render_node sinfo_fields rows noheader
          (sinfo-IsShown sinfo_fields),
    )
