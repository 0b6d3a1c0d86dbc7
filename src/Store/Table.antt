-- ===== src/Store/Table.antt =====
-- `Store` of src/store/mod.rs, and the queries of src/store/lookup.rs and src/store/listing.rs that
-- read it. The table is its rows, as `map_job` of src/store/row.rs reads them, in the order of
-- their ids; `last_id` is what SQLite's AUTOINCREMENT keeps. A statement on the table succeeds.
use slotd.Prelude.{
  ℕ, Bool, true, false, ◌&&◌, ◌||◌, not, List, [], ◌∷◌, Option, none, some, Text, ltb, leb, ◌==◌,
  if◌then◌else◌, ℤ, pos, negsuc, keep, length, sort_by,
}
use slotd.Strings.{text_eq, is_empty}
use slotd.Config.{AppConfig}
use slotd.Job.{JobRecord, JobState, state_eq, running, pending, completing}

pub record Store : Type 0 where
  pub jobs : List JobRecord
  pub last_id : ℕ
  pub config : AppConfig

-- The text column `state_reason`, read back: the empty text is no reason.
unfoldable pub reason_column : Text → Option Text
reason_column value = if is_empty value then none else some value

-- `UPDATE jobs SET … WHERE p`.
unfoldable pub update_rows :
    (JobRecord → Bool) → (JobRecord → JobRecord) → List JobRecord → List JobRecord
update_rows p f [] = []
update_rows p f (j ∷ js) = (if p j then f j else j) ∷ update_rows p f js

-- `WHERE id = ?`.
abbrev pub has_id : ℕ → JobRecord → Bool
has_id job_id j = j.id == job_id

unfoldable pub update_job : ℕ → (JobRecord → JobRecord) → Store → Store
unfolding update_rows
update_job job_id f s = record s { jobs = update_rows (has_id job_id) f s.jobs }

unfoldable pub find_job : (JobRecord → Bool) → List JobRecord → Option JobRecord
find_job p [] = none
find_job p (j ∷ js) = if p j then some j else find_job p js

unfoldable pub get_job : Store → ℕ → Option JobRecord
unfolding find_job
get_job s job_id = find_job (has_id job_id) s.jobs

-- A request may name any `i64`; no row has a negative id.
unfoldable pub get_job_i64 : Store → ℤ → Option JobRecord
unfolding get_job
get_job_i64 s (pos n) = get_job s n
get_job_i64 s (negsuc n) = none

abbrev pub is_none {ℓ} : {A : Type ℓ} → Option A → Bool
is_none none = true
is_none (some a) = false

-- `parent_job_id IS NULL`: the row is a job and no step.
abbrev pub is_top_level : JobRecord → Bool
is_top_level j = is_none j.parent_job_id

abbrev pub is_running : JobRecord → Bool
is_running j = state_eq j.state running

abbrev pub is_pending : JobRecord → Bool
is_pending j = state_eq j.state pending

-- `state = 'RUNNING' AND parent_job_id IS NULL`: the rows that hold resources.
abbrev pub holds : JobRecord → Bool
holds j = is_running j && is_top_level j

-- `state = 'PENDING' AND parent_job_id IS NULL`.
abbrev pub waits : JobRecord → Bool
waits j = is_pending j && is_top_level j

abbrev pub opt_eq : Option ℕ → ℕ → Bool
opt_eq none n = false
opt_eq (some m) n = m == n

unfoldable pub list_running_jobs : Store → List JobRecord
unfolding keep
list_running_jobs s = keep is_running s.jobs

unfoldable pub running_array_tasks : Store → ℕ → ℕ
unfolding keep
running_array_tasks s array_job_id =
    length (keep (λ j. opt_eq j.array_job_id array_job_id && is_running j) s.jobs)

unfoldable pub is_active : JobState → Bool
is_active st = state_eq st pending || state_eq st running || state_eq st completing

unfoldable pub has_active_job_with_name : Store → Text → Text → ℕ → Bool
unfolding keep is_active
has_active_job_with_name s user_name job_name exclude_job_id = ltb 0 (
    length (
      keep
        (λ j.
          text_eq j.user_name user_name
          && text_eq j.name job_name
          && not (has_id exclude_job_id j)
          && is_active j.state)
        s.jobs))

unfoldable pub any_running_top_level_job : Store → Bool
unfolding keep
any_running_top_level_job s = ltb 0 (length (keep holds s.jobs))

unfoldable pub any_running_exclusive_job : Store → Bool
unfolding keep
any_running_exclusive_job s = ltb 0 (length (keep (λ j. holds j && j.exclusive) s.jobs))

-- `list_steps`: by step id, then by row id. NULLs come first in SQLite.
step_before : JobRecord → JobRecord → Bool
step_before a b = opt_le a.step_id b.step_id
  where
    opt_le : Option ℕ → Option ℕ → Bool
    opt_le none _ = true
    opt_le (some m) none = false
    opt_le (some m) (some n) = leb m n

unfoldable pub list_steps : Store → ℕ → List JobRecord
unfolding keep step_before
list_steps s parent_job_id =
    sort_by step_before (keep (λ j. opt_eq j.parent_job_id parent_job_id) s.jobs)
