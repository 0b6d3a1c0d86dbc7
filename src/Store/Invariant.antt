-- ===== src/Store/Invariant.antt =====
-- What a statement of src/store does to a row, and the interface for the properties of the whole
-- table that statements keep.
use slotd.Prelude.{
  ℕ, ◌≡◌, refl, sym, ap, ◌∙◌, Bool, true, false, List, [], ◌∷◌, Option, some, Text, ℤ, arith, All,
  All-imp, inl, inr, ◌⊎◌, ◌≢◌, Option-cases,
}
use slotd.Job.{JobRecord, JobState, running}
use slotd.Store.Table.{Store, update_rows, update_job, find_job, get_job, has_id, holds}
use slotd.Store.Updates.{
  adopt_allocation, mark_finished, end_row, Outcome, should_auto_requeue, mark_state,
  update_max_rss, cancel_pending_job, finished_job,
}
use slotd.Store.Control.{hold_job, release_job}
use slotd.Store.Usage.{cpus_of, memory_of, gpus_of}
use slotd.Store.Creation.{insert_row}
use slotd.Store.Ids.{IsOrdered, find_job-only}

-- `k` is `j` after a statement: the same job with the same demand, no new claim to resources, and
-- at most one requeue more.
pub record Changed (j k : JobRecord) : Type 0 where
  pub same_id : k.id ≡ j.id
  pub same_cpus : cpus_of k ≡ cpus_of j
  pub same_memory : memory_of k ≡ memory_of j
  pub same_gpus : gpus_of k ≡ gpus_of j
  pub same_exclusive : k.exclusive ≡ j.exclusive
  pub no_claim : holds k ≡ true → holds j ≡ true
  pub requeues :
      (k.requeue_count ≡ j.requeue_count) ⊎ ((j.requeue_count ≡ 0) × (k.requeue_count ≡ 1))

-- The same, but for a job that starts.
pub record Started (j k : JobRecord) : Type 0 where
  pub same_id : k.id ≡ j.id
  pub same_cpus : cpus_of k ≡ cpus_of j
  pub same_memory : memory_of k ≡ memory_of j
  pub same_gpus : gpus_of k ≡ gpus_of j
  pub same_exclusive : k.exclusive ≡ j.exclusive
  pub same_requeues : k.requeue_count ≡ j.requeue_count

-- A row that INSERT may add.
pub record Fresh (row : ℕ → JobRecord) : Type 0 where
  pub own_id : (n : ℕ) → (row n).id ≡ n
  pub no_claim : (n : ℕ) → holds (row n) ≡ false
  pub no_requeues : (n : ℕ) → (row n).requeue_count ≡ 0

-- The parts of a row that `Changed` is about.
pub record Core : Type 0 where
  pub id : ℕ
  pub cpus : ℕ
  pub memory : ℕ
  pub gpus : ℕ
  pub exclusive : Bool
  pub claims : Bool
  pub requeue_count : ℕ

abbrev pub core : JobRecord → Core
core j = record {
  id = j.id;
  cpus = cpus_of j;
  memory = memory_of j;
  gpus = gpus_of j;
  exclusive = j.exclusive;
  claims = holds j;
  requeue_count = j.requeue_count;
}

-- A statement that leaves those parts alone.
pub Changed-of_core : (j k : JobRecord) → core k ≡ core j → Changed j k
Changed-of_core j k e = record {
  same_id = ap (λ (c : Core). c.id) e;
  same_cpus = ap (λ (c : Core). c.cpus) e;
  same_memory = ap (λ (c : Core). c.memory) e;
  same_gpus = ap (λ (c : Core). c.gpus) e;
  same_exclusive = ap (λ (c : Core). c.exclusive) e;
  no_claim = λ h. sym (ap (λ (c : Core). c.claims) e) ∙ h;
  requeues = inl (ap (λ (c : Core). c.requeue_count) e);
}

-- Statements other than those that start a job keep `P`. `P` includes the order of the ids.
pub record Kept (P : Store → Type 0) : Type 0 where
  pub ordered : (s : Store) → P s → IsOrdered s
  pub update :
      (p : JobRecord → Bool) (f : JobRecord → JobRecord) (s : Store)
      → All (λ j. p j ≡ true → Changed j (f j)) s.jobs
      → P s
      → P (record s { jobs = update_rows p f s.jobs })
  pub insert : (row : ℕ → JobRecord) (s : Store) → Fresh row → P s → P (insert_row row s)

pub All-pointwise {ℓ κ} : {A : Type ℓ} (Q : A → Type κ) (xs : List A) → ((x : A) → Q x) → All Q xs
All-pointwise Q [] h = tt
All-pointwise Q (x ∷ xs) h = (h x, All-pointwise Q xs h)

module _ (P : Store → Type 0) (k : Kept P) where
  -- A statement whose change is right for every row that it meets.
  pub update-Kept :
      (p : JobRecord → Bool) (f : JobRecord → JobRecord) (s : Store)
      → ((j : JobRecord) → p j ≡ true → Changed j (f j))
      → P s
      → P (record s { jobs = update_rows p f s.jobs })
  update-Kept p f s h v = k.update p f s (All-pointwise _ s.jobs h) v

  pub quiet-Kept :
      (p : JobRecord → Bool) (f : JobRecord → JobRecord) (s : Store)
      → ((j : JobRecord) → core (f j) ≡ core j)
      → P s
      → P (record s { jobs = update_rows p f s.jobs })
  quiet-Kept p f s h v = update-Kept p f s (λ j e. Changed-of_core j (f j) (h j)) v

  pub quiet_job-Kept :
      (id : ℕ) (f : JobRecord → JobRecord) (s : Store)
      → ((j : JobRecord) → core (f j) ≡ core j)
      → P s
      → P (update_job id f s)
  unfolding update_job
  quiet_job-Kept id f s h v = quiet-Kept (has_id id) f s h v

  pub adopt_allocation-Kept :
      (id : ℕ) (pid pgid : ℤ) (s : Store) → P s → P (adopt_allocation id pid pgid s)
  unfolding adopt_allocation
  adopt_allocation-Kept id pid pgid s v = quiet_job-Kept id _ s (λ j. refl) v

  pub mark_state-Kept :
      (id : ℕ) (st : JobState) (reason : Option Text) (s : Store)
      → st ≢ running
      → P s
      → P (mark_state id st reason s)
  unfolding mark_state update_job
  mark_state-Kept id st reason s h v =
      update-Kept _ _ s
        (λ j e. record {
          same_id = refl;
          same_cpus = refl;
          same_memory = refl;
          same_gpus = refl;
          same_exclusive = refl;
          no_claim = λ c. ground arith;
          requeues = inl refl;
        })
        v

  pub update_max_rss-Kept : (id kb : ℕ) (s : Store) → P s → P (update_max_rss id kb s)
  unfolding update_max_rss
  update_max_rss-Kept id kb s v = quiet_job-Kept id _ s (λ j. refl) v

  pub cancel_pending_job-Kept :
      (id : ℕ) (now : ℤ) (s : Store) → P s → P (cancel_pending_job id now s).1
  unfolding cancel_pending_job
  cancel_pending_job-Kept id now s v =
      update-Kept _ _ s
        (λ j e. record {
          same_id = refl;
          same_cpus = refl;
          same_memory = refl;
          same_gpus = refl;
          same_exclusive = refl;
          no_claim = λ c. cc;
          requeues = inl refl;
        })
        v

  pub hold_job-Kept : (id : ℕ) (s : Store) → P s → P (hold_job id s)
  unfolding hold_job
  hold_job-Kept id s v = quiet-Kept _ _ s (λ j. refl) v

  pub release_job-Kept : (id : ℕ) (s : Store) → P s → P (release_job id s)
  unfolding release_job
  release_job-Kept id s v = quiet-Kept _ _ s (λ j. refl) v

  end_row-Changed :
      (o : Outcome) (now : ℤ) (job j : JobRecord)
      → o.state ≢ running
      → j ≡ job
      → Changed j (end_row o now job j)
  unfolding end_row should_auto_requeue
  end_row-Changed o now job j h e = record {
    same_id = ground arith;
    same_cpus = ground arith;
    same_memory = ground arith;
    same_gpus = ground arith;
    same_exclusive = ground arith;
    no_claim = λ c. ground arith;
    requeues = ground arith;
  }

  pub mark_finished-Kept :
      (id : ℕ) (o : Outcome) (now : ℤ) (s : Store)
      → o.state ≢ running
      → P s
      → P (mark_finished id o now s).1
  unfolding mark_finished get_job
  mark_finished-Kept id o now s h v = elim (Option-cases (find_job (has_id id) s.jobs)) [
    | inl e ↦ rw (e, mark_finished) v
    | inr (job, e) ↦ rw (e, mark_finished) (ended job e)
  ]
    where
      ended :
          (job : JobRecord)
          → find_job (has_id id) s.jobs ≡ some job
          → P (finished_job id o now s job).1
      ended job e =
          unfold finished_job update_job in
          k.update (has_id id) (end_row o now job) s
            (All-imp _ _ s.jobs (λ j only m. end_row-Changed o now job j h (only m))
              (find_job-only id 0 s.jobs s.last_id job (k.ordered s v) e))
            v
