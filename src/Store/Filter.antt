-- ===== src/Store/Filter.antt =====
-- `filter_jobs` of src/store/support.rs and the two listings of src/store/listing.rs that use it.
use slotd.Prelude.{
  ℕ, Bool, true, ◌&&◌, ◌||◌, List, Option, none, some, Text, leb, ◌==◌, ℤ, leb_ℤ, sort_by, keep,
  any,
}
use slotd.Strings.{text_eq}
use slotd.Job.{JobRecord, JobState, state_eq, unwrap_or}
use slotd.Store.Table.{Store, is_top_level}

-- `map(test).unwrap_or(true)`.
abbrev pub holds_if_given {ℓ} : {A : Type ℓ} → (A → Bool) → Option A → Bool
holds_if_given test none = true
holds_if_given test (some a) = test a

-- The filters of a listing.
pub record Query : Type 0 where
  pub states : Option (List JobState)
  pub ids : Option (List ℕ)
  pub user_name : Option Text
  pub partitions : Option (List Text)
  pub start_time : Option ℤ
  pub end_time : Option ℤ

started_by : JobRecord → ℤ → Bool
started_by job start =
    leb_ℤ start job.submit_time || leb_ℤ start (unwrap_or job.submit_time job.start_time)

abbrev or_time : Option ℤ → Option ℤ → Option ℤ
or_time none b = b
or_time (some a) b = some a

ended_by : JobRecord → ℤ → Bool
ended_by job end = leb_ℤ (unwrap_or job.submit_time (or_time job.end_time job.start_time)) end

unfoldable pub selected : Query → JobRecord → Bool
unfolding any started_by ended_by
selected q job =
    holds_if_given (any (λ st. state_eq st job.state)) q.states
    && holds_if_given (any (λ n. n == job.id)) q.ids
    && holds_if_given (text_eq job.user_name) q.user_name
    && holds_if_given (any (λ p. text_eq p job.partition)) q.partitions
    && holds_if_given (started_by job) q.start_time
    && holds_if_given (ended_by job) q.end_time

unfoldable pub filter_jobs : List JobRecord → Query → List JobRecord
unfolding keep selected
filter_jobs jobs q = keep (selected q) jobs

-- `jobs.sort_by(|a, b| b.id.cmp(&a.id))`.
unfoldable pub newest_first : List JobRecord → List JobRecord
unfolding sort_by
newest_first = sort_by (λ a b. leb b.id a.id)

-- `list_jobs` passes no times.
unfoldable pub list_jobs : Store → Query → List JobRecord
unfolding filter_jobs newest_first
list_jobs s q =
    filter_jobs (newest_first (keep is_top_level s.jobs))
      (record q { start_time = none; end_time = none })

unfoldable pub list_accounting_jobs : Store → Query → List JobRecord
unfolding filter_jobs newest_first
list_accounting_jobs s q = filter_jobs (newest_first s.jobs) q
