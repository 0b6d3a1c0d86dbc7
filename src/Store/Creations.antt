-- ===== src/Store/Creations.antt =====
-- Creating jobs and updating their fields (src/store/job_creation.rs, array_creation.rs,
-- step_creation.rs, control_updates.rs), under the interface of Invariant.
use slotd.Prelude.{
  ℕ, refl, not, List, [], ◌∷◌, Option, none, some, Text, ℤ, inl, inr, Result, ok, err, diverges,
  Bool-cases, Option-cases, Answer, gives, refuses, leb,
}
use slotd.Strings.{i64_max}
use slotd.Job.{JobRecord, SubmitRequest, is_terminal}
use slotd.Submit.ArraySpec.{ArraySpec, parse_array_spec}
use slotd.Store.Table.{Store, get_job, is_pending}
use slotd.Store.Control.{
  update_job_fields, stages, after, Stage, name_stage, partition_stage, limit_stage, priority_stage,
}
use slotd.Store.Creation.{
  create_job_entry, create_tasks, create_array_jobs, create_job, create_step, JobPaths, ArrayPlace,
  after_files, name_array, then_task, first_task, create_parsed, create_by_spec, no_array,
  request_name, new_row, step_row, set_paths, next_step_id,
}
use slotd.Store.Invariant.{Kept, quiet_job-Kept, quiet-Kept}

module _ (P : Store → Type 0) (k : Kept P) where
  after-Kept :
      (r : Result (Unit {0}) × Store) (next : Stage)
      → P r.1
      → ((t : Store) → P t → P (next t).1)
      → P (after r next).1
  unfolding after
  after-Kept (ok _, s) next v h = h s v
  after-Kept (err e, s) next v h = v
  after-Kept (diverges, s) next v h = v

  name_stage-Kept :
      (job : JobRecord) (id : ℕ) (o : Option Text) (s : Store) → P s → P (name_stage job id o s).1
  unfolding name_stage
  name_stage-Kept job id none s v = v
  name_stage-Kept job id (some a) s v = elim (Bool-cases (not (is_pending job))) [
    | inl e ↦ rw e v
    | inr e ↦ rw e (quiet_job-Kept P k id _ s (λ j. refl) v)
  ]

  partition_stage-Kept :
      (job : JobRecord) (id : ℕ) (o : Option Text) (s : Store)
      → P s
      → P (partition_stage job id o s).1
  unfolding partition_stage
  partition_stage-Kept job id none s v = v
  partition_stage-Kept job id (some a) s v = elim (Bool-cases (not (is_pending job))) [
    | inl e ↦ rw e v
    | inr e ↦ rw e (quiet-Kept P k _ _ s (λ j. refl) v)
  ]

  limit_stage-Kept :
      (job : JobRecord) (id : ℕ) (o : Option ℕ) (s : Store) → P s → P (limit_stage job id o s).1
  unfolding limit_stage
  limit_stage-Kept job id none s v = v
  limit_stage-Kept job id (some a) s v = elim (Bool-cases (is_terminal job.state)) [
    | inl e ↦ rw e v
    | inr e ↦ rw e (quiet_job-Kept P k id _ s (λ j. refl) v)
  ]

  priority_stage-Kept :
      (job : JobRecord) (id : ℕ) (o : Option ℤ) (s : Store) → P s → P (priority_stage job id o s).1
  unfolding priority_stage
  priority_stage-Kept job id none s v = v
  priority_stage-Kept job id (some a) s v = elim (Bool-cases (not (is_pending job))) [
    | inl e ↦ rw e v
    | inr e ↦ rw e (quiet_job-Kept P k id _ s (λ j. refl) v)
  ]

  stages-Kept :
      (job : JobRecord) (id : ℕ) (name partition : Option Text) (limit : Option ℕ)
      (priority : Option ℤ) (s : Store)
      → P s
      → P (stages job id name partition limit priority s).1
  unfolding stages
  stages-Kept job id name partition limit priority s v =
      after-Kept _ (priority_stage job id priority)
        (after-Kept _ (limit_stage job id limit)
          (after-Kept (name_stage job id name s) (partition_stage job id partition)
            (name_stage-Kept job id name s v) (partition_stage-Kept job id partition))
          (limit_stage-Kept job id limit))
        (priority_stage-Kept job id priority)

  pub update_job_fields-Kept :
      (id : ℕ) (name partition : Option Text) (limit : Option ℕ) (priority : Option ℤ) (s : Store)
      → P s
      → P (update_job_fields id name partition limit priority s).1
  unfolding update_job_fields
  update_job_fields-Kept id name partition limit priority s v = elim (Option-cases (get_job s id)) [
    | inl e ↦ rw (e, update_job_fields) v
    | inr (job, e) ↦
        rw (e, update_job_fields) (stages-Kept job id name partition limit priority s v)
  ]

  pub create_step-Kept :
      (id : ℕ) (name command cwd user : Text) (now : ℤ) (s : Store)
      → P s
      → P (create_step id name command cwd user now s).1
  unfolding create_step step_row
  create_step-Kept id name command cwd user now s v = elim (Option-cases (get_job s id)) [
    | inl e ↦ rw (e, create_step) v
    | inr (job, e) ↦
        rw (e, create_step)
          (k.insert (step_row job (next_step_id id s.jobs) name command cwd user now) s
            (record { own_id = λ n. refl; no_claim = λ n. refl; no_requeues = λ n. refl }) v)
  ]

  module _ (write_files : JobPaths → Text → Answer (Unit {0})) (now : ℤ) where
    after_files-Kept :
        (a : Answer (Unit {0})) (p : JobPaths) (id : ℕ) (s : Store)
        → P s
        → P (after_files write_files now a p id s).1
    unfolding after_files set_paths
    after_files-Kept (gives _) p id s v = quiet_job-Kept P k id _ s (λ j. refl) v
    after_files-Kept (refuses e) p id s v = v

    pub create_job_entry-Kept :
        (r : SubmitRequest) (a : ArrayPlace) (name : Text) (s : Store)
        → P s
        → P (create_job_entry write_files now r a name s).1
    unfolding create_job_entry new_row
    create_job_entry-Kept r a name s v = elim (Bool-cases (leb r.requested_memory_mb i64_max)) [
      | inl e ↦ rw e (
          after_files-Kept _ _ _ _ (
            k.insert (λ id. new_row id r a name now) s
              (record { own_id = λ n. refl; no_claim = λ n. refl; no_requeues = λ n. refl }) v))
      | inr e ↦ rw e v
    ]

    then_task-Kept :
        (first : Option ℕ) (r : Result ℕ × Store)
        (next : Option ℕ → Store → Result (Option ℕ) × Store)
        → P r.1
        → ((o : Option ℕ) (t : Store) → P t → P (next o t).1)
        → P (then_task write_files now first r next).1
    unfolding then_task name_array
    then_task-Kept none (ok id, s) next v h = h _ _ (quiet_job-Kept P k id _ s (λ j. refl) v)
    then_task-Kept (some f) (ok id, s) next v h = h _ _ v
    then_task-Kept first (err e, s) next v h = v
    then_task-Kept first (diverges, s) next v h = v

    create_tasks-Kept :
        (r : SubmitRequest) (count : ℕ) (limit : Option ℕ) (name : Text) (first : Option ℕ)
        (ids : List ℤ) (s : Store)
        → P s
        → P (create_tasks write_files now r count limit name first ids s).1
    unfolding create_tasks
    create_tasks-Kept r count limit name first [] s v = v
    create_tasks-Kept r count limit name first (id ∷ ids) s v =
        then_task-Kept first _ _ (create_job_entry-Kept r _ name s v)
          (λ o t u. create_tasks-Kept r count limit name o ids t u)

    first_task-Kept : (r : Result (Option ℕ) × Store) → P r.1 → P (first_task write_files now r).1
    unfolding first_task
    first_task-Kept (ok none, s) v = v
    first_task-Kept (ok (some id), s) v = v
    first_task-Kept (err e, s) v = v
    first_task-Kept (diverges, s) v = v

    create_parsed-Kept :
        (r : SubmitRequest) (spec : Result ArraySpec) (s : Store)
        → P s
        → P (create_parsed write_files now r spec s).1
    unfolding create_parsed
    create_parsed-Kept r (ok spec) s v = first_task-Kept _ (create_tasks-Kept r _ _ _ _ _ s v)
    create_parsed-Kept r (err e) s v = v
    create_parsed-Kept r diverges s v = v

    create_by_spec-Kept :
        (r : SubmitRequest) (o : Option Text) (s : Store)
        → P s
        → P (create_by_spec write_files now r o s).1
    unfolding create_by_spec create_array_jobs
    create_by_spec-Kept r (some spec) s v = create_parsed-Kept r (parse_array_spec spec) s v
    create_by_spec-Kept r none s v =
        create_job_entry-Kept r no_array (request_name write_files now r) s v

    pub create_job-Kept :
        (r : SubmitRequest) (s : Store) → P s → P (create_job write_files now r s).1
    unfolding create_job
    create_job-Kept r s v = create_by_spec-Kept r r.array_spec s v
