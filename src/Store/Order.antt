-- ===== src/Store/Order.antt =====
-- `order_pending_jobs` of src/store/support.rs, and `next_pending_jobs` of src/store/listing.rs.
use slotd.Prelude.{
  ℕ, zero, suc, Bool, true, false, ◌&&◌, ◌||◌, List, [], ◌∷◌, ◌++◌, map, ltb, leb, ◌==◌,
  if◌then◌else◌, ltb_ℤ, eqb_ℤ, sort_by, keep, length,
}
use slotd.Job.{JobRecord, unwrap_or}
use slotd.Store.Table.{Store, waits}

-- Higher priority first, then the earlier submission, then the lower id.
unfoldable pub job_before : JobRecord → JobRecord → Bool
job_before a b =
    ltb_ℤ b.priority a.priority
    || (eqb_ℤ a.priority b.priority
        && (ltb_ℤ a.submit_time b.submit_time
            || (eqb_ℤ a.submit_time b.submit_time && leb a.id b.id)))

-- The tasks of one array are a group; another job is one by itself.
abbrev pub group_key : JobRecord → ℕ
group_key j = unwrap_or j.id j.array_job_id

abbrev pub Group : Type 0
Group = ℕ × List JobRecord

-- `grouped.entry(key).or_default().push(job)`, the map in the order of its keys.
unfoldable pub push_group : JobRecord → List Group → List Group
push_group job [] = (group_key job, job ∷ []) ∷ []
push_group job ((key, jobs) ∷ gs) =
    if group_key job == key
    then (key, jobs ++ job ∷ []) ∷ gs
    else if ltb (group_key job) key
    then (group_key job, job ∷ []) ∷ (key, jobs) ∷ gs
    else (key, jobs) ∷ push_group job gs

unfoldable pub group_jobs : List Group → List JobRecord → List Group
unfolding push_group
group_jobs gs [] = gs
group_jobs gs (job ∷ jobs) = group_jobs (push_group job gs) jobs

-- Groups are compared by the first of their jobs; no group is empty.
tops_before : List JobRecord → List JobRecord → Bool
unfolding job_before
tops_before [] bs = true
tops_before (a ∷ as') [] = false
tops_before (a ∷ as') (b ∷ bs) = job_before a b

unfoldable pub group_before : Group → Group → Bool
unfolding tops_before
group_before g h = tops_before g.1 h.1

-- One round of the loop takes the first job of each group that has one left.
unfoldable pub first_jobs : List (List JobRecord) → List JobRecord
first_jobs [] = []
first_jobs ([] ∷ gs) = first_jobs gs
first_jobs ((j ∷ js) ∷ gs) = j ∷ first_jobs gs

unfoldable pub other_jobs : List (List JobRecord) → List (List JobRecord)
other_jobs [] = []
other_jobs ([] ∷ gs) = [] ∷ other_jobs gs
other_jobs ((j ∷ js) ∷ gs) = js ∷ other_jobs gs

-- The loop, with fuel: it ends when a round takes nothing.
unfoldable pub take_rounds : ℕ → List (List JobRecord) → List JobRecord
unfolding first_jobs other_jobs
take_rounds zero gs = []
take_rounds (suc fuel) gs = elim (first_jobs gs) [
  | [] ↦ []
  | j ∷ js ↦ (j ∷ js) ++ take_rounds fuel (other_jobs gs)
]

abbrev pub jobs_of : Group → List JobRecord
jobs_of g = g.1

-- A job leaves in each round but the last, so the number of jobs and one is fuel enough.
unfoldable pub order_pending_jobs : List JobRecord → List JobRecord
unfolding take_rounds group_jobs group_before sort_by
order_pending_jobs jobs =
    take_rounds (suc (length jobs))
      (map jobs_of (sort_by group_before (group_jobs [] (sort_by job_before jobs))))

unfoldable pub next_pending_jobs : Store → List JobRecord
unfolding keep
next_pending_jobs s = order_pending_jobs (keep waits s.jobs)
