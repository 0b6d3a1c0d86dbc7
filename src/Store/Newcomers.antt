-- ===== src/Store/Newcomers.antt =====
-- The rows that `create_job` of src/store adds: their ids and what they ask for.
use slotd.Prelude.{
  ℕ, suc, ◌≤◌, ◌<◌, ◌≡◌, refl, ap, ◌∙◌, Bool, List, [], ◌∷◌, Option, none, some, Text, ℤ, arith,
  All, All-imp, All-append, Bool-cases, inl, inr, Result, ok, err, diverges, Answer, gives, refuses,
  leb, pos,
}
use slotd.Strings.{i64_max}
use slotd.Job.{JobRecord, SubmitRequest}
use slotd.Submit.ArraySpec.{ArraySpec, parse_array_spec}
use slotd.Store.Table.{Store, update_rows, update_job}
use slotd.Store.Creation.{
  JobPaths, ArrayPlace, no_array, new_row, insert_row, set_paths, after_files, create_job_entry,
  name_array, then_task, create_tasks, first_task, request_name, create_parsed, create_array_jobs,
  create_by_spec, create_job,
}
use slotd.Store.Invariant.{Core, core}
use slotd.Store.Sound.{SameDemand}

-- A row as the request would have it; its id, name and times say nothing here.
unfoldable pub asked : SubmitRequest → JobRecord
unfolding new_row
asked r = new_row 0 r no_array [] (pos 0)

-- The rows above the id `lo` ask for what `r` asks for.
pub record Only (r : SubmitRequest) (lo : ℕ) (s : Store) : Type 0 where
  pub same : All (λ j. lo < j.id → SameDemand (asked r) j) s.jobs
  pub above : lo ≤ s.last_id

pub start-Only :
    (r : SubmitRequest) (lo : ℕ) (s : Store)
    → All (λ j. j.id ≤ lo) s.jobs
    → lo ≡ s.last_id
    → Only r lo s
start-Only r lo s a e = record {
  same = All-imp _ _ s.jobs (λ j h l. absurd (omega arith)) a;
  above = omega arith;
}

Same-core :
    (r : SubmitRequest) (lo : ℕ) (j k : JobRecord)
    → core k ≡ core j
    → (lo < j.id → SameDemand (asked r) j)
    → lo < k.id
    → SameDemand (asked r) k
Same-core r lo j k e h l =
    let d = h (omega (arith, ap (λ (c : Core). c.id) e)) in
    record {
      same_cpus = ap (λ (c : Core). c.cpus) e ∙ d.same_cpus;
      same_memory = ap (λ (c : Core). c.memory) e ∙ d.same_memory;
      same_gpus = ap (λ (c : Core). c.gpus) e ∙ d.same_gpus;
      same_exclusive = ap (λ (c : Core). c.exclusive) e ∙ d.same_exclusive;
    }

module _ (r : SubmitRequest) (lo : ℕ) where
  rows-Only :
      (p : JobRecord → Bool) (f : JobRecord → JobRecord) (js : List JobRecord)
      → ((j : JobRecord) → core (f j) ≡ core j)
      → All (λ j. lo < j.id → SameDemand (asked r) j) js
      → All (λ j. lo < j.id → SameDemand (asked r) j) (update_rows p f js)
  unfolding update_rows
  rows-Only p f [] e a = tt
  rows-Only p f (j ∷ js) e a = elim (Bool-cases (p j)) [
    | inl h ↦ rw h (Same-core r lo j (f j) (e j) a.0, rows-Only p f js e a.1)
    | inr h ↦ rw h (a.0, rows-Only p f js e a.1)
  ]

  update_job-Only :
      (id : ℕ) (f : JobRecord → JobRecord) (s : Store)
      → ((j : JobRecord) → core (f j) ≡ core j)
      → Only r lo s
      → Only r lo (update_job id f s)
  unfolding update_job
  update_job-Only id f s e v = record { same = rows-Only _ f s.jobs e v.same; above = v.above }

  insert_row-Only :
      (row : ℕ → JobRecord) (s : Store)
      → ((n : ℕ) → SameDemand (asked r) (row n))
      → Only r lo s
      → Only r lo (insert_row row s)
  unfolding insert_row
  insert_row-Only row s d v = record {
    same = All-append _ s.jobs _ v.same ((λ l. d (suc s.last_id)), tt);
    above = omega (arith, v.above);
  }

  -- A task's id is new.
  abbrev pub Made : Result ℕ × Store → Type 0
  Made (ok id, s) = Only r lo s × (lo < id)
  Made (err e, s) = Unit
  Made (diverges, s) = Unit

  abbrev First : Result (Option ℕ) × Store → Type 0
  First (ok none, s) = Only r lo s
  First (ok (some id), s) = Only r lo s × (lo < id)
  First (err e, s) = Unit
  First (diverges, s) = Unit

  module _ (write_files : JobPaths → Text → Answer (Unit {0})) (now : ℤ) where
    after_files-Made :
        (a : Answer (Unit {0})) (p : JobPaths) (id : ℕ) (s : Store)
        → Only r lo s
        → lo < id
        → Made (after_files write_files now a p id s)
    unfolding after_files set_paths
    after_files-Made (gives _) p id s v l = (update_job-Only id _ s (λ j. refl) v, l)
    after_files-Made (refuses e) p id s v l = tt

    create_job_entry-Made :
        (a : ArrayPlace) (name : Text) (s : Store)
        → Only r lo s
        → Made (create_job_entry write_files now r a name s)
    unfolding create_job_entry asked new_row
    create_job_entry-Made a name s v = elim (Bool-cases (leb r.requested_memory_mb i64_max)) [
      | inl e ↦ rw e (
          after_files-Made _ _ _ _
            (insert_row-Only (λ id. new_row id r a name now) s
              (λ n. record {
                same_cpus = refl;
                same_memory = refl;
                same_gpus = refl;
                same_exclusive = refl;
              })
              v)
            (omega (arith, v.above)))
      | inr e ↦ rw e tt
    ]

    abbrev Above : Option ℕ → Type 0
    Above none = Unit
    Above (some id) = lo < id

    then_task-First :
        (first : Option ℕ) (x : Result ℕ × Store)
        (next : Option ℕ → Store → Result (Option ℕ) × Store)
        → Above first
        → Made x
        → ((o : Option ℕ) (t : Store) → Above o → Only r lo t → First (next o t))
        → First (then_task write_files now first x next)
    unfolding then_task name_array
    then_task-First none (ok id, s) next b v h = h _ _ v.1 (update_job-Only id _ s (λ j. refl) v.0)
    then_task-First (some f) (ok id, s) next b v h = h _ _ b v.0
    then_task-First first (err e, s) next b v h = tt
    then_task-First first (diverges, s) next b v h = tt

    create_tasks-First :
        (count : ℕ) (limit : Option ℕ) (name : Text) (first : Option ℕ) (ids : List ℤ) (s : Store)
        → Above first
        → Only r lo s
        → First (create_tasks write_files now r count limit name first ids s)
    unfolding create_tasks
    create_tasks-First count limit name none [] s b v = v
    create_tasks-First count limit name (some f) [] s b v = (v, b)
    create_tasks-First count limit name first (id ∷ ids) s b v =
        then_task-First first _ _ b (create_job_entry-Made _ name s v)
          (λ o t c u. create_tasks-First count limit name o ids t c u)

    first_task-Made :
        (x : Result (Option ℕ) × Store) → First x → Made (first_task write_files now x)
    unfolding first_task
    first_task-Made (ok none, s) v = tt
    first_task-Made (ok (some id), s) v = v
    first_task-Made (err e, s) v = tt
    first_task-Made (diverges, s) v = tt

    create_parsed-Made :
        (spec : Result ArraySpec) (s : Store)
        → Only r lo s
        → Made (create_parsed write_files now r spec s)
    unfolding create_parsed
    create_parsed-Made (ok spec) s v = first_task-Made _ (create_tasks-First _ _ _ none _ s tt v)
    create_parsed-Made (err e) s v = tt
    create_parsed-Made diverges s v = tt

    create_by_spec-Made :
        (o : Option Text) (s : Store) → Only r lo s → Made (create_by_spec write_files now r o s)
    unfolding create_by_spec create_array_jobs
    create_by_spec-Made (some spec) s v = create_parsed-Made (parse_array_spec spec) s v
    create_by_spec-Made none s v =
        create_job_entry-Made no_array (request_name write_files now r) s v

    -- The id that a creation returns is new, and the new rows ask for what the request asks for.
    pub create_job-Made : (s : Store) → Only r lo s → Made (create_job write_files now r s)
    unfolding create_job
    create_job-Made s v = create_by_spec-Made r.array_spec s v
