-- ===== src/Store/Usage.antt =====
-- src/store/resource_accounting.rs and src/store/allocation.rs: what the running jobs hold, what is
-- left, and which GPUs are handed out.
use slotd.Prelude.{
  ℕ, zero, suc, ◌-◌, ◌*◌, Bool, true, false, ◌&&◌, ◌||◌, List, [], ◌∷◌, ◌++◌, Option, none, some,
  Text, lit, leb, ◌==◌, if◌then◌else◌, keep, length, Result, ok, err, ◌>>=◌, message, sqlite,
}
use slotd.Prelude.Sums.{sum_by}
use slotd.Strings.{text_eq, u32_max, i64_max}
use slotd.Job.{JobRecord}
use slotd.Store.Table.{Store, holds}

-- `AND partition = ?`, where a partition is given.
abbrev pub in_partition : Option Text → JobRecord → Bool
in_partition none j = true
in_partition (some p) j = text_eq j.partition p

abbrev pub cpus_of : JobRecord → ℕ
cpus_of j = j.requested_cpus * j.requested_tasks

abbrev pub memory_of : JobRecord → ℕ
memory_of j = j.requested_memory_mb

abbrev pub gpus_of : JobRecord → ℕ
gpus_of j = j.requested_gpus

unfoldable pub holders : Option Text → List JobRecord → List JobRecord
unfolding keep
holders partition jobs = keep (λ j. holds j && in_partition partition j) jobs

-- `row.get` into a type that the sum may not fit.
unfoldable pub get_at_most : ℕ → ℕ → Result ℕ
get_at_most bound n = if leb n bound then ok n else err (sqlite (lit "integer out of range"))

unfoldable pub running_usage_totals : Option Text → Store → Result (ℕ × ℕ × ℕ)
unfolding holders sum_by get_at_most
running_usage_totals partition s = do
  let rows = holders partition s.jobs
  cpus ← get_at_most u32_max (sum_by cpus_of rows)
  memory ← get_at_most i64_max (sum_by memory_of rows)
  gpus ← get_at_most u32_max (sum_by gpus_of rows)
  ok (cpus, memory, gpus)

-- `saturating_sub` is the subtraction of ℕ.
unfoldable pub available_resources : Store → Result (ℕ × ℕ × ℕ)
unfolding running_usage_totals
available_resources s = do
  used ← running_usage_totals none s
  ok (s.config.total_cpus - used.0, s.config.total_memory_mb - used.1, s.config.total_gpus - used.2)

unfoldable pub all_gpu_ids : List JobRecord → List ℕ
all_gpu_ids [] = []
all_gpu_ids (j ∷ js) = j.assigned_gpu_ids ++ all_gpu_ids js

unfoldable pub gpu_ids_in_use : Option Text → Store → List ℕ
unfolding holders all_gpu_ids
gpu_ids_in_use partition s = all_gpu_ids (holders partition s.jobs)

-- `sort_unstable` and `binary_search`: is the id among them?
unfoldable pub contains : ℕ → List ℕ → Bool
contains n [] = false
contains n (m ∷ ms) = n == m || contains n ms

-- The loop over `gpu_id` in 0..total_gpus; its first argument counts the rounds that are left.
unfoldable pub pick_gpus : ℕ → ℕ → List ℕ → List ℕ → ℕ → List ℕ
unfolding contains
pick_gpus zero gpu_id used assigned requested = assigned
pick_gpus (suc rounds) gpu_id used assigned requested = elim (contains gpu_id used) [
  | true ↦ pick_gpus rounds (suc gpu_id) used assigned requested
  | false ↦ elim (length (assigned ++ gpu_id ∷ []) == requested) [
    | true ↦ assigned ++ gpu_id ∷ []
    | false ↦ pick_gpus rounds (suc gpu_id) used (assigned ++ gpu_id ∷ []) requested
  ]
]

unfoldable pub allocate_gpu_ids : ℕ → Store → Result (List ℕ)
unfolding pick_gpus
allocate_gpu_ids requested_gpus s =
    let assigned = pick_gpus s.config.total_gpus 0 (gpu_ids_in_use none s) [] requested_gpus in
    if requested_gpus == 0
    then ok []
    else if length assigned == requested_gpus
    then ok assigned
    else err (message (lit "not enough free GPU IDs to satisfy the request"))
