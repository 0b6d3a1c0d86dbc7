-- ===== src/Daemon/Capacity.antt =====
-- `resources_fit` of src/runtime/daemon.rs against the room that the machine has left.
use slotd.Prelude.{
  ℕ, ◌+◌, ◌-◌, ◌≤◌, ◌<◌, ◌≡◌, refl, ap, Bool, true, false, ◌&&◌, leb, min, if◌then◌else◌, arith,
  Bool-cases, inl, inr, ◌⊎◌, Result, ok, err, diverges, ◌>>=◌, sqlite, lit, Halts,
}
use slotd.Strings.{u32_max, i64_max}
use slotd.Job.{JobRecord}
use slotd.Job.Display.{saturating_mul}
use slotd.Store.{
  Store, any_running_exclusive_job, any_running_top_level_job, available_resources,
  running_usage_totals, get_at_most, cpus_of, memory_of, gpus_of,
}
use slotd.Store.Claims.{claimed, sum-holders, none_running, none_exclusive}
use slotd.Store.Sound.{IsSound, Room}
use slotd.Daemon.Fit.{Demand, resources_fit, enough, enough_gpus}
use slotd.Daemon.Schedule.{demand}

abbrev value_or_false : Result Bool → Bool
value_or_false (ok b) = b
value_or_false (err e) = false
value_or_false diverges = false

get_at_most-cases :
    (b n : ℕ)
    → (get_at_most b n ≡ ok n) ⊎ (get_at_most b n ≡ err (sqlite (lit "integer out of range")))
unfolding get_at_most
get_at_most-cases b n = elim (Bool-cases (leb n b)) [
  | inl h ↦ inl (rw h refl)
  | inr h ↦ inr (rw h refl)
]

-- The demand is within what is left.
record Fits (s : Store) (job : JobRecord) : Type 0 where
  cpus :
      leb
        (saturating_mul job.requested_cpus job.requested_tasks)
        (s.config.total_cpus - claimed cpus_of s.jobs)
      ≡ true
  memory : leb job.requested_memory_mb (s.config.total_memory_mb - claimed memory_of s.jobs) ≡ true
  gpus : enough_gpus s (demand job) (s.config.total_gpus - claimed gpus_of s.jobs) ≡ true

enough-Fits :
    (s : Store) (job : JobRecord)
    → enough s (demand job) (
      s.config.total_cpus - claimed cpus_of s.jobs,
      s.config.total_memory_mb - claimed memory_of s.jobs,
      s.config.total_gpus - claimed gpus_of s.jobs,
    )
      ≡ true
    → Fits s job
unfolding enough
enough-Fits s job e = record { cpus = ground arith; memory = ground arith; gpus = ground arith }

available-Fits :
    (s : Store) (job : JobRecord)
    → (available_resources s >>= λ a. ok (enough s (demand job) a)) ≡ ok true
    → Fits s job
unfolding available_resources running_usage_totals
available-Fits s job =
    rw (sum-holders cpus_of s.jobs, sum-holders memory_of s.jobs, sum-holders gpus_of s.jobs)
      (elim (get_at_most-cases u32_max (claimed cpus_of s.jobs)) [
        | inr h ↦ rw h (λ e. cc)
        | inl c ↦ elim (get_at_most-cases i64_max (claimed memory_of s.jobs)) [
          | inr h ↦ rw (c, h) (λ e. cc)
          | inl m ↦ elim (get_at_most-cases u32_max (claimed gpus_of s.jobs)) [
            | inr h ↦ rw (c, m, h) (λ e. cc)
            | inl g ↦ rw (c, m, g) (λ e. enough-Fits s job (ap value_or_false e))
          ]
        ]
      ])

gpus-Room :
    (s : Store) (job : JobRecord)
    → claimed gpus_of s.jobs ≤ s.config.total_gpus
    → enough_gpus s (demand job) (s.config.total_gpus - claimed gpus_of s.jobs) ≡ true
    → claimed gpus_of s.jobs + gpus_of job ≤ s.config.total_gpus
unfolding enough_gpus
gpus-Room s job l e = ground arith

cpus-Room :
    (total used n : ℕ)
    → used ≤ total
    → total < u32_max
    → leb (min n u32_max) (total - used) ≡ true
    → used + n ≤ total
cpus-Room total used n l h e = ground arith

Fits-Room :
    (s : Store) (job : JobRecord)
    → IsSound s
    → any_running_exclusive_job s ≡ false
    → (job.exclusive ≡ true → any_running_top_level_job s ≡ false)
    → Fits s job
    → Room s job
Fits-Room s job v x a h = record {
  cpus =
      cpus-Room s.config.total_cpus (claimed cpus_of s.jobs) (cpus_of job) v.cpus v.cpu_count
        h.cpus;
  memory = ground (arith, v.memory, h.memory);
  gpus = gpus-Room s job v.gpus h.gpus;
  no_exclusive = none_exclusive s x;
  alone = λ e. none_running s (a e);
}

both_clear :
    (exclusive_runs exclusive top_runs : Bool) (r : Result Bool)
    → (if exclusive_runs then ok false else if exclusive && top_runs then ok false else r) ≡ ok true
    → (exclusive_runs ≡ false) × (exclusive ≡ true → top_runs ≡ false) × (r ≡ ok true)
both_clear true exclusive top_runs r e = cc
both_clear false true true r e = cc
both_clear false true false r e = (refl, (λ z. refl), e)
both_clear false false top_runs r e = (refl, (λ z. cc), e)

-- On a sound table, when the check says that a job fits, what the running jobs and this one ask for
-- together is within the machine's processors, memory and GPUs, no exclusive job is running, and
-- nothing is running if the job is exclusive.
pub fits-Room :
    (s : Store) (job : JobRecord) → IsSound s → resources_fit s (demand job) ≡ ok true → Room s job
unfolding resources_fit
fits-Room s job v e =
    let clear =
      both_clear (any_running_exclusive_job s) job.exclusive (any_running_top_level_job s) _ e in
    Fits-Room s job v clear.0 clear.1 (available-Fits s job clear.2)

-- The check ends.
pub resources_fit-Halts : (s : Store) (d : Demand) → Halts (resources_fit s d)
unfolding resources_fit available_resources running_usage_totals get_at_most
resources_fit-Halts s d = ground arith
