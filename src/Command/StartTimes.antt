-- ===== src/Command/StartTimes.antt =====
-- `estimate_start_times` of src/command/helpers.rs. The clock is an argument.
use slotd.Prelude.{
  ℕ, ◌-◌, ◌%◌, ◌^◌, Bool, true, false, ◌&&◌, List, [], ◌∷◌, keep, Option, none, some, Text, lit,
  leb, ◌==◌, if◌then◌else◌, ℤ, ltb_ℤ, leb_ℤ, ◌+ℤ◌, clamp_i64, as_i64,
}
use slotd.Prelude.Sums.{sum_by}
use slotd.Job.{JobRecord, JobState, state_eq, running, pending, unwrap_or}
use slotd.Job.Display.{saturating_mul}
use slotd.Config.{AppConfig}
use slotd.Util.Time.{format_timestamp}

-- A running job that is no step.
unfoldable pub holds_resources : JobRecord → Bool
holds_resources entry =
    state_eq entry.state running && elim entry.parent_job_id [ none ↦ true | some p ↦ false ]

later_of : ℤ → ℤ → ℤ
later_of a b = if leb_ℤ a b then b else a

-- When a running job with a time limit is over at the latest.
unfoldable pub release_of : JobRecord → Option ℤ
release_of entry = elim entry.start_time [
  | none ↦ none
  | some start ↦ elim entry.time_limit_secs [
    | none ↦ none
    | some limit ↦ some (clamp_i64 (start +ℤ as_i64 limit))
  ]
]

last_release : List JobRecord → Option ℤ
unfolding release_of later_of
last_release [] = none
last_release (entry ∷ entries) = elim (release_of entry) [
  | none ↦ last_release entries
  | some t ↦ elim (last_release entries) [ none ↦ some t | some u ↦ some (later_of t u) ]
]

-- `job.begin_time.filter(|value| *value > now)`.
future_begin : ℤ → Option ℤ → Option ℤ
future_begin now none = none
future_begin now (some begin) = if ltb_ℤ now begin then some begin else none

-- The sums of `u32` and `u64` wrap.
unfoldable pub fits_now : AppConfig → List JobRecord → JobRecord → Bool
unfolding sum_by
fits_now config running_jobs entry =
    let used_cpus =
      sum_by (λ j. saturating_mul j.requested_cpus j.requested_tasks) running_jobs % 2 ^ 32 in
    let used_memory_mb = sum_by (λ j. j.requested_memory_mb) running_jobs % 2 ^ 64 in
    let used_gpus = sum_by (λ j. j.requested_gpus) running_jobs % 2 ^ 32 in
    leb (saturating_mul entry.requested_cpus entry.requested_tasks) (config.total_cpus - used_cpus)
    && leb entry.requested_memory_mb (config.total_memory_mb - used_memory_mb)
    && leb entry.requested_gpus (config.total_gpus - used_gpus)

-- Behind the last release and the earliest begin that are known.
behind : Option ℤ → Option ℤ → Option ℤ
unfolding later_of
behind (some release) (some begin) = some (later_of release begin)
behind (some release) none = some release
behind none begin = begin

unfoldable pub pending_start : AppConfig → (now : ℤ) → List JobRecord → JobRecord → Option ℤ
unfolding fits_now future_begin behind last_release
pending_start config now running_jobs entry =
    let begin = future_begin now entry.begin_time in
    if fits_now config running_jobs entry
    then some (unwrap_or now begin)
    else behind (last_release running_jobs) begin

estimated : AppConfig → ℤ → List JobRecord → JobRecord → JobState → Option ℤ
unfolding pending_start
estimated config now running_jobs entry running = entry.start_time
estimated config now running_jobs entry pending = pending_start config now running_jobs entry
estimated config now running_jobs entry _ = none

time_text : Option ℤ → Text
unfolding format_timestamp lit
time_text none = lit "N/A"
time_text (some t) = format_timestamp t

-- The text put in last for an id.
last_for : (JobRecord → Text) → List JobRecord → ℕ → Option Text
last_for f [] id = none
last_for f (entry ∷ entries) id = elim (last_for f entries id) [
  | some t ↦ some t
  | none ↦ if entry.id == id then some (f entry) else none
]

unfoldable pub estimate_start_times : AppConfig → (now : ℤ) → List JobRecord → ℕ → Option Text
unfolding last_for time_text estimated keep holds_resources
estimate_start_times config now entries =
    let running_jobs = keep holds_resources entries in
    last_for (λ entry. time_text (estimated config now running_jobs entry entry.state)) entries
