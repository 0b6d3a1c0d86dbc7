-- ===== src/Store/Sound.antt =====
-- The invariant of the jobs table of src/store.
use slotd.Prelude.{
  ℕ, suc, ◌+◌, ◌≤◌, ◌<◌, ◌≡◌, ◌≢◌, refl, Bool, true, false, List, [], ◌∷◌, arith, All, All-imp,
  All-append, Bool-cases, inl, inr, ◌⊎◌,
}
use slotd.Strings.{u32_max}
use slotd.Job.{JobRecord}
use slotd.Store.Table.{Store, update_rows, has_id, update_job}
use slotd.Store.Usage.{cpus_of, memory_of, gpus_of}
use slotd.Store.Creation.{insert_row}
use slotd.Store.Ids.{IsOrdered, update_rows-Rising, append-Rising}
use slotd.Store.Claims.{
  claimed, one_each, exclusive_of, claimed-update, claimed-append, claimed-start,
}
use slotd.Store.Invariant.{Kept, Changed, Started, Fresh}

abbrev pub RequeuedOnce : List JobRecord → Type 0
RequeuedOnce = All (λ j. j.requeue_count ≤ 1)

-- Ids name one row; the running jobs fit the machine; an exclusive job runs alone; no job has been
-- requeued twice.
-- The number of processors is below the largest `u32`.
pub record IsSound (s : Store) : Type 0 where
  pub cpu_count : s.config.total_cpus < u32_max
  pub ordered : IsOrdered s
  pub cpus : claimed cpus_of s.jobs ≤ s.config.total_cpus
  pub memory : claimed memory_of s.jobs ≤ s.config.total_memory_mb
  pub gpus : claimed gpus_of s.jobs ≤ s.config.total_gpus
  pub alone : claimed exclusive_of s.jobs ≢ 0 → claimed one_each s.jobs ≤ 1
  pub requeued_once : RequeuedOnce s.jobs

RequeuedOnce-update :
    (p : JobRecord → Bool) (f : JobRecord → JobRecord) (js : List JobRecord)
    → All (λ j. p j ≡ true → j.requeue_count ≤ 1 → (f j).requeue_count ≤ 1) js
    → RequeuedOnce js
    → RequeuedOnce (update_rows p f js)
unfolding update_rows
RequeuedOnce-update p f [] a r = tt
RequeuedOnce-update p f (j ∷ js) a r = elim (Bool-cases (p j)) [
  | inl e ↦ rw e (a.0 e r.0, RequeuedOnce-update p f js a.1 r.1)
  | inr e ↦ rw e (r.0, RequeuedOnce-update p f js a.1 r.1)
]

module _ (p : JobRecord → Bool) (f : JobRecord → JobRecord) (s : Store) where
  claims-update :
      (g : JobRecord → ℕ)
      → ((j k : JobRecord) → Changed j k → g k ≡ g j)
      → All (λ j. p j ≡ true → Changed j (f j)) s.jobs
      → claimed g (update_rows p f s.jobs) ≤ claimed g s.jobs
  claims-update g same a =
      claimed-update g p f s.jobs
        (All-imp _ _ s.jobs (λ j h e. (same j (f j) (h e), (h e).no_claim)) a)

  update-IsSound :
      All (λ j. p j ≡ true → Changed j (f j)) s.jobs
      → IsSound s
      → IsSound (record s { jobs = update_rows p f s.jobs })
  update-IsSound a v = record {
    cpu_count = v.cpu_count;
    ordered =
        update_rows-Rising p f 0 s.jobs s.last_id (All-imp _ _ s.jobs (λ j h e. (h e).same_id) a)
          v.ordered;
    cpus = omega (arith, claims-update cpus_of (λ j k c. c.same_cpus) a, v.cpus);
    memory = omega (arith, claims-update memory_of (λ j k c. c.same_memory) a, v.memory);
    gpus = omega (arith, claims-update gpus_of (λ j k c. c.same_gpus) a, v.gpus);
    alone = λ h. omega (
      arith,
      claims-update one_each (λ j k c. refl) a,
      v.alone
          (λ z. h (omega (arith, claims-update exclusive_of (λ j k c. exclusive_same j k c) a))),
    );
    requeued_once =
        RequeuedOnce-update p f s.jobs (All-imp _ _ s.jobs (λ j h e l. once j (f j) (h e) l) a)
          v.requeued_once;
  }
    where
      exclusive_same : (j k : JobRecord) → Changed j k → exclusive_of k ≡ exclusive_of j
      exclusive_same j k c = rw c.same_exclusive

      once : (j k : JobRecord) → Changed j k → j.requeue_count ≤ 1 → k.requeue_count ≤ 1
      once j k c l = elim c.requeues [ inl e ↦ omega arith | inr e ↦ omega arith ]

insert-IsSound :
    (row : ℕ → JobRecord) (s : Store) → Fresh row → IsSound s → IsSound (insert_row row s)
unfolding insert_row
insert-IsSound row s f v =
    let new = row (suc s.last_id) in
    let idle = f.no_claim (suc s.last_id) in
    record {
      cpu_count = v.cpu_count;
      ordered = append-Rising 0 s.jobs s.last_id new (f.own_id (suc s.last_id)) v.ordered;
      cpus = omega (arith, claimed-append cpus_of s.jobs new idle, v.cpus);
      memory = omega (arith, claimed-append memory_of s.jobs new idle, v.memory);
      gpus = omega (arith, claimed-append gpus_of s.jobs new idle, v.gpus);
      alone = λ h. omega (
        arith,
        claimed-append one_each s.jobs new idle,
        v.alone (λ z. h (omega (arith, claimed-append exclusive_of s.jobs new idle))),
      );
      requeued_once =
          All-append _ s.jobs (new ∷ []) v.requeued_once
            (omega (arith, f.no_requeues (suc s.last_id)), tt);
    }

pub IsSound-Kept : Kept IsSound
IsSound-Kept = record {
  ordered = λ s v. v.ordered;
  update = update-IsSound;
  insert = insert-IsSound;
}

-- Room for one more job.
pub record Room (s : Store) (job : JobRecord) : Type 0 where
  pub cpus : claimed cpus_of s.jobs + cpus_of job ≤ s.config.total_cpus
  pub memory : claimed memory_of s.jobs + memory_of job ≤ s.config.total_memory_mb
  pub gpus : claimed gpus_of s.jobs + gpus_of job ≤ s.config.total_gpus
  pub no_exclusive : claimed exclusive_of s.jobs ≡ 0
  pub alone : job.exclusive ≡ true → claimed one_each s.jobs ≡ 0

-- The rows with the id `job.id` ask for what `job` asks for.
pub record SameDemand (job j : JobRecord) : Type 0 where
  pub same_cpus : cpus_of j ≡ cpus_of job
  pub same_memory : memory_of j ≡ memory_of job
  pub same_gpus : gpus_of j ≡ gpus_of job
  pub same_exclusive : j.exclusive ≡ job.exclusive

module _ (id : ℕ) (job : JobRecord) (f : JobRecord → JobRecord) (s : Store)
    (only : All (λ j. has_id id j ≡ true → SameDemand job j) s.jobs)
    (starts : (j : JobRecord) → Started j (f j)) (v : IsSound s) where
  claims-start :
      (g : JobRecord → ℕ) (n : ℕ)
      → ((j : JobRecord) → SameDemand job j → Started j (f j) → g (f j) ≤ n)
      → claimed g (update_rows (has_id id) f s.jobs) ≤ claimed g s.jobs + n
  claims-start g n h =
      claimed-start g id n f 0 s.jobs s.last_id v.ordered
        (All-imp _ _ s.jobs (λ j d e. h j (d e) (starts j)) only)

  -- A job is started where there is room for it.
  pub start-IsSound : Room s job → IsSound (update_job id f s)
  unfolding update_job
  start-IsSound room = record {
    cpu_count = v.cpu_count;
    ordered =
        update_rows-Rising (has_id id) f 0 s.jobs s.last_id
          (All-imp _ _ s.jobs (λ j d e. (starts j).same_id) only) v.ordered;
    cpus = omega (
      arith,
      claims-start cpus_of (cpus_of job) (λ j d t. omega (arith, d.same_cpus, t.same_cpus)),
      room.cpus,
    );
    memory = omega (
      arith,
      claims-start memory_of (memory_of job) (λ j d t. omega (arith, d.same_memory, t.same_memory)),
      room.memory,
    );
    gpus = omega (
      arith,
      claims-start gpus_of (gpus_of job) (λ j d t. omega (arith, d.same_gpus, t.same_gpus)),
      room.gpus,
    );
    alone = λ h. alone_case (Bool-cases job.exclusive) h;
    requeued_once =
        RequeuedOnce-update (has_id id) f s.jobs
          (All-imp _ _ s.jobs (λ j d e l. rw (starts j).same_requeues l) only) v.requeued_once;
  }
    where
      shared : job.exclusive ≡ false → claimed exclusive_of (update_rows (has_id id) f s.jobs) ≡ 0
      shared e = omega (
        arith,
        claims-start exclusive_of 0
            (λ j d t. rw (t.same_exclusive, d.same_exclusive, e) (omega arith)),
        room.no_exclusive,
      )

      alone_case :
          (job.exclusive ≡ true) ⊎ (job.exclusive ≡ false)
          → claimed exclusive_of (update_rows (has_id id) f s.jobs) ≢ 0
          → claimed one_each (update_rows (has_id id) f s.jobs) ≤ 1
      alone_case (inl e) h =
          omega (arith, claims-start one_each 1 (λ j d t. omega arith), room.alone e)
      alone_case (inr e) h = absurd (h (shared e))
