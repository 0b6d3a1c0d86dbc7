-- ===== src/Daemon/Bare.antt =====
-- The checks of the scheduler of src/runtime/daemon.rs do not look at the reasons written beside the
-- states of the jobs.
use slotd.Prelude.{
  ℕ, ◌≡◌, refl, ap, ◌∙◌, Bool, true, false, List, [], ◌∷◌, map, Option, none, some, Text, ℤ, pos,
  negsuc, arith, keep, length, ltb, Result, ok, err, diverges, ◌>>=◌, Bool-cases, inl, inr, collect,
}
use slotd.Prelude.Sums.{sum_by}
use slotd.Strings.{u32_max, i64_max, trim, split_once}
use slotd.Job.{JobRecord}
use slotd.Store.{
  Store, find_job, has_id, get_job, get_job_i64, has_active_job_with_name, running_array_tasks,
  any_running_exclusive_job, any_running_top_level_job, available_resources, running_usage_totals,
  holders, cpus_of, memory_of, gpus_of, get_at_most,
}
use slotd.Daemon.Fit.{Demand, resources_fit}
use slotd.Daemon.Dependency.{
  target_satisfied, ids_satisfied, checked_ids, kind_clause_satisfied, dependency_clause_satisfied,
  clauses_satisfied, spec_satisfied, dependency_satisfied, at_limit, array_at_limit,
  pending_block_reason, parse_dependency_id, parts,
}

abbrev pub bare_job : JobRecord → JobRecord
bare_job j = record j { state_reason = none }

abbrev pub bare : Store → Store
bare s = record s { jobs = map bare_job s.jobs }

module _ (p : JobRecord → Bool) (same : (j : JobRecord) → p (bare_job j) ≡ p j) where
  pub keep-bare : (js : List JobRecord) → keep p (map bare_job js) ≡ map bare_job (keep p js)
  unfolding keep
  keep-bare [] = refl
  keep-bare (j ∷ js) = elim (Bool-cases (p j)) [
    | inl b ↦ rw (same j, b, keep-bare js) refl
    | inr b ↦ rw (same j, b, keep-bare js) refl
  ]

  count-bare : (js : List JobRecord) → length (keep p (map bare_job js)) ≡ length (keep p js)
  count-bare js = ap length (keep-bare js) ∙ length_bare (keep p js)
    where
      length_bare : (ks : List JobRecord) → length (map bare_job ks) ≡ length ks
      length_bare [] = refl
      length_bare (k ∷ ks) = omega (arith, length_bare ks)

  sum-bare :
      (f : JobRecord → ℕ)
      → ((j : JobRecord) → f (bare_job j) ≡ f j)
      → (js : List JobRecord) → sum_by f (keep p (map bare_job js)) ≡ sum_by f (keep p js)
  unfolding sum_by
  sum-bare f h js = ap (sum_by f) (keep-bare js) ∙ sum_bare (keep p js)
    where
      sum_bare : (ks : List JobRecord) → sum_by f (map bare_job ks) ≡ sum_by f ks
      sum_bare [] = refl
      sum_bare (k ∷ ks) = omega (arith, h k, sum_bare ks)

target-bare :
    (kind : Text) (p : JobRecord → Bool)
    → ((j : JobRecord) → p (bare_job j) ≡ p j)
    → (js : List JobRecord)
    → target_satisfied kind (find_job p (map bare_job js)) ≡ target_satisfied kind (find_job p js)
unfolding find_job
target-bare kind p same [] = refl
target-bare kind p same (j ∷ js) = elim (Bool-cases (p j)) [
  | inl b ↦ rw (same j, b) (unfold target_satisfied in refl)
  | inr b ↦ rw (same j, b) (target-bare kind p same js)
]

module _ (s : Store) where
  any_exclusive-bare : any_running_exclusive_job (bare s) ≡ any_running_exclusive_job s
  unfolding any_running_exclusive_job
  any_exclusive-bare = ap (ltb 0) (count-bare _ (λ j. refl) s.jobs)

  any_top-bare : any_running_top_level_job (bare s) ≡ any_running_top_level_job s
  unfolding any_running_top_level_job
  any_top-bare = ap (ltb 0) (count-bare _ (λ j. refl) s.jobs)

  tasks-bare : (id : ℕ) → running_array_tasks (bare s) id ≡ running_array_tasks s id
  unfolding running_array_tasks
  tasks-bare id = count-bare _ (λ j. refl) s.jobs

  active-bare :
      (user_name name : Text) (id : ℕ)
      → has_active_job_with_name (bare s) user_name name id
        ≡ has_active_job_with_name s user_name name id
  unfolding has_active_job_with_name
  active-bare user_name name id = ap (ltb 0) (count-bare _ (λ j. refl) s.jobs)

  holders-bare :
      (f : JobRecord → ℕ)
      → ((j : JobRecord) → f (bare_job j) ≡ f j)
      → sum_by f (holders none (bare s).jobs) ≡ sum_by f (holders none s.jobs)
  unfolding holders
  holders-bare f h = sum-bare _ (λ j. refl) f h s.jobs

  usage-bare : running_usage_totals none (bare s) ≡ running_usage_totals none s
  unfolding running_usage_totals
  usage-bare =
      ap
        (λ (n : ℕ).
          totals n (sum_by memory_of (holders none (bare s).jobs))
            (sum_by gpus_of (holders none (bare s).jobs)))
        (holders-bare cpus_of (λ j. refl))
      ∙ ap
          (λ (n : ℕ).
            totals (sum_by cpus_of (holders none s.jobs)) n
              (sum_by gpus_of (holders none (bare s).jobs)))
          (holders-bare memory_of (λ j. refl))
      ∙ ap (totals (sum_by cpus_of (holders none s.jobs)) (sum_by memory_of (holders none s.jobs)))
          (holders-bare gpus_of (λ j. refl))
    where
      totals : ℕ → ℕ → ℕ → Result (ℕ × ℕ × ℕ)
      totals c m g = do
        cpus ← get_at_most u32_max c
        memory ← get_at_most i64_max m
        gpus ← get_at_most u32_max g
        ok (cpus, memory, gpus)

  resources-bare : available_resources (bare s) ≡ available_resources s
  unfolding available_resources
  resources-bare = rw usage-bare refl

  pub resources_fit-bare : (d : Demand) → resources_fit (bare s) d ≡ resources_fit s d
  unfolding resources_fit
  resources_fit-bare d = rw (any_exclusive-bare, any_top-bare, resources-bare) refl

  ids-bare :
      (kind : Text) (ids : List ℤ) → ids_satisfied (bare s) kind ids ≡ ids_satisfied s kind ids
  unfolding ids_satisfied get_job_i64 get_job
  ids-bare kind [] = refl
  ids-bare kind (pos n ∷ ids) =
      rw (target-bare kind (has_id n) (λ j. refl) s.jobs, ids-bare kind ids) refl
  ids-bare kind (negsuc n ∷ ids) = unfold target_satisfied in refl

  checked-bare :
      (kind : Text) (ids : List ℤ) → checked_ids (bare s) kind ids ≡ checked_ids s kind ids
  unfolding checked_ids
  checked-bare kind [] = refl
  checked-bare kind (id ∷ ids) = ids-bare kind (id ∷ ids)

  kind_clause-bare :
      (o : Option (Text × Text)) → kind_clause_satisfied (bare s) o ≡ kind_clause_satisfied s o
  unfolding kind_clause_satisfied
  kind_clause-bare none = refl
  kind_clause-bare (some (kind, value)) = later (collect parse_dependency_id (parts b':' value))
    where
      later :
          (r : Result (List ℤ))
          → (r >>= λ ids. ok (checked_ids (bare s) kind ids))
            ≡ (r >>= λ ids. ok (checked_ids s kind ids))
      later (ok ids) = ap ok (checked-bare kind ids)
      later (err e) = refl
      later diverges = refl

  clause-bare :
      (job : JobRecord) (clause : Text)
      → dependency_clause_satisfied (bare s) job clause ≡ dependency_clause_satisfied s job clause
  unfolding dependency_clause_satisfied
  clause-bare job clause =
      rw (active-bare job.user_name job.name job.id, kind_clause-bare (split_once b':' clause)) refl

  clauses-bare :
      (job : JobRecord) (cs : List Text)
      → clauses_satisfied (bare s) job cs ≡ clauses_satisfied s job cs
  unfolding clauses_satisfied
  clauses-bare job [] = refl
  clauses-bare job (c ∷ cs) =
      ap
        (λ (r : Result Bool). r >>= λ satisfied. elim satisfied [
          | true ↦ clauses_satisfied (bare s) job cs
          | false ↦ ok false
        ])
        (clause-bare job c)
      ∙ ap
          (λ (rest : Result Bool). dependency_clause_satisfied s job c >>= λ satisfied.
            elim satisfied [ true ↦ rest | false ↦ ok false ])
          (clauses-bare job cs)

  spec-bare :
      (job : JobRecord) (o : Option Text) → spec_satisfied (bare s) job o ≡ spec_satisfied s job o
  unfolding spec_satisfied
  spec-bare job none = refl
  spec-bare job (some spec) = rw (clauses-bare job (parts b',' (trim spec))) refl

  limit-bare : (a limit : Option ℕ) → at_limit (bare s) a limit ≡ at_limit s a limit
  unfolding at_limit
  limit-bare (some a) (some limit) = rw (tasks-bare a) refl
  limit-bare (some a) none = refl
  limit-bare none limit = refl

  pub pending_block_reason-bare :
      (now : ℤ) (job : JobRecord)
      → pending_block_reason (bare s) now job ≡ pending_block_reason s now job
  unfolding pending_block_reason dependency_satisfied array_at_limit
  pending_block_reason-bare now job =
      rw (spec-bare job job.dependency, limit-bare job.array_job_id job.array_task_limit) refl
