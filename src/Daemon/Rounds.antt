-- ===== src/Daemon/Rounds.antt =====
-- The rounds of `schedule_pending_jobs` of src/runtime/daemon.rs, as triples on the store.
use slotd.Prelude.{
  ℕ, zero, suc, ◌≤◌, ◌<◌, ◌≡◌, refl, sym, ◌∙◌, Bool, true, false, List, [], ◌∷◌, Option, none, some,
  Text, ℤ, arith, All, All-imp, ok, diverges, keep,
}
use slotd.Job.{JobRecord, pending}
use slotd.Store.{
  Store, mark_running, mark_allocation_running, mark_state, update_job, next_pending_jobs, waits,
  get_job,
}
use slotd.Store.Invariant.{mark_state-Kept, Started}
use slotd.Store.Sound.{IsSound, IsSound-Kept, Room, start-IsSound}
use slotd.Store.Current.{
  Current, waits-Current, Current-only, Current-waits, update-Current, waits-note, waits-start,
}
use slotd.Store.OrderLaws.{order-All}
use slotd.Runtime.{World}
use slotd.Runtime.Runs.{
  Runs, if-Runs, either-Runs, bind-Runs, seq-Runs, pre-Runs, post-Runs, pure-Runs, read-Runs,
  lift-Runs, on_store-Runs,
}
use slotd.Runtime.Launching.{launch-Runs}
use slotd.Daemon.Capacity.{fits-Room, resources_fit-Halts}
use slotd.Daemon.Halting.{pending_block_reason-Halts}
use slotd.Daemon.Fit.{resources_fit}
use slotd.Daemon.Dependency.{pending_block_reason}
use slotd.Daemon.Schedule.{
  demand, start_job, note_reason, start_if_fit, consider_free, consider, one_round, schedule_rounds,
  waiting, schedule_pending_jobs,
}

-- The jobs are current, and at most `n` wait.
pub record Ready (n : ℕ) (jobs : List JobRecord) (s : Store) : Type 0 where
  pub sound : IsSound s
  pub current : All (Current s) jobs
  pub few : waiting s ≤ n

-- A job has been started: fewer than `n` wait.
pub record Stepped (n : ℕ) (s : Store) : Type 0 where
  pub sound : IsSound s
  pub fewer : waiting s < n

abbrev Next : ℕ → List JobRecord → Bool → Store → Type 0
Next n jobs true s = Stepped n s
Next n jobs false s = Ready n jobs s

abbrev pub After : ℕ → Bool → Store → Type 0
After n true s = Stepped n s
After n false s = IsSound s

start-Stepped :
    (n : ℕ) (job : JobRecord) (jobs : List JobRecord) (f : JobRecord → JobRecord) (s : Store)
    → ((j : JobRecord) → Started j (f j))
    → ((j : JobRecord) → waits (f j) ≡ false)
    → Ready n (job ∷ jobs) s
    → Room s job
    → Stepped n (update_job job.id f s)
unfolding update_job waiting get_job
start-Stepped n job jobs f s starts stops v room =
    let c = v.current.0 in
    record {
      sound =
          start-IsSound job.id job f s (Current-only s job v.sound.ordered c) starts v.sound room;
      fewer = omega (arith, waits-start job.id f s.jobs c.row stops c.found c.waiting, v.few);
    }

mark_running-Stepped :
    (n : ℕ) (job : JobRecord) (jobs : List JobRecord) (pid : ℤ) (gpus : List ℕ) (now : ℤ)
    (s : Store)
    → Ready n (job ∷ jobs) s
    → Room s job
    → Stepped n (mark_running job.id pid pid gpus now s)
unfolding mark_running
mark_running-Stepped n job jobs pid gpus now s v room =
    start-Stepped n job jobs _ s
      (λ j. record {
        same_id = refl;
        same_cpus = refl;
        same_memory = refl;
        same_gpus = refl;
        same_exclusive = refl;
        same_requeues = refl;
      })
      (λ j. refl) v room

mark_allocation_running-Stepped :
    (n : ℕ) (job : JobRecord) (jobs : List JobRecord) (now : ℤ) (s : Store)
    → Ready n (job ∷ jobs) s
    → Room s job
    → Stepped n (mark_allocation_running job.id now s)
unfolding mark_allocation_running
mark_allocation_running-Stepped n job jobs now s v room =
    start-Stepped n job jobs _ s
      (λ j. record {
        same_id = refl;
        same_cpus = refl;
        same_memory = refl;
        same_gpus = refl;
        same_exclusive = refl;
        same_requeues = refl;
      })
      (λ j. refl) v room

note-Ready :
    (n : ℕ) (job : JobRecord) (jobs : List JobRecord) (reason : Text) (s : Store)
    → Ready n (job ∷ jobs) s
    → Ready n jobs (mark_state job.id pending (some reason) s)
unfolding mark_state waiting update_job
note-Ready n job jobs reason s v = record {
  sound = mark_state-Kept IsSound IsSound-Kept job.id pending (some reason) s (λ e. cc) v.sound;
  current =
      All-imp _ _ jobs
        (λ j c.
          update-Current job.id _ s j
            (λ i. record {
              same_id = refl;
              same = record {
                same_cpus = refl;
                same_memory = refl;
                same_gpus = refl;
                same_exclusive = refl;
              };
              waiting = λ e. ground arith;
            })
            c)
        v.current.1;
  few =
      omega (
        arith,
        waits-note job.id _ s.jobs (Current-waits s job v.sound.ordered v.current.0),
        v.few,
      );
}

module _ (w : World) where
  fresh_start-Runs :
      (n : ℕ) (job : JobRecord) (jobs : List JobRecord)
      → Runs IsSound (λ s. Ready n (job ∷ jobs) s × Room s job) (start_job w job) (λ _. Stepped n)
  unfolding start_job
  fresh_start-Runs n job jobs =
      if-Runs IsSound job.allocation_only
        (on_store-Runs IsSound _
          (λ s v. mark_allocation_running-Stepped n job jobs w.now s v.0 v.1))
        (launch-Runs w job IsSound _ (Stepped n) (λ s v. v.0.sound)
          (λ s pid gpus v. mark_running-Stepped n job jobs pid gpus w.now s v.0 v.1))

  note_reason-Runs :
      (n : ℕ) (job : JobRecord) (jobs : List JobRecord) (reason : Text)
      → Runs IsSound (Ready n (job ∷ jobs)) (note_reason job reason) (λ _. Ready n jobs)
  unfolding note_reason
  note_reason-Runs n job jobs reason =
      on_store-Runs IsSound _ (λ s v. note-Ready n job jobs reason s v)

  start_if_fit-Runs :
      (n : ℕ) (job : JobRecord) (jobs : List JobRecord) (fits : Bool)
      → Runs IsSound
          (λ s. Ready n (job ∷ jobs) s × (resources_fit s (demand job) ≡ ok fits))
          (start_if_fit w job fits)
          (Next n jobs)
  unfolding start_if_fit
  start_if_fit-Runs n job jobs true =
      seq-Runs IsSound (Stepped n)
        (pre-Runs IsSound (λ s v. (v.0, fits-Room s job v.0.sound v.1))
          (fresh_start-Runs n job jobs))
        (pure-Runs IsSound true (λ s v. v))
  start_if_fit-Runs n job jobs false =
      seq-Runs IsSound (Ready n jobs)
        (pre-Runs IsSound (λ s v. v.0) (note_reason-Runs n job jobs _))
        (pure-Runs IsSound false (λ s v. v))

  consider_free-Runs :
      (n : ℕ) (job : JobRecord) (jobs : List JobRecord) (o : Option Text)
      → Runs IsSound (Ready n (job ∷ jobs)) (consider_free w job o) (Next n jobs)
  unfolding consider_free
  consider_free-Runs n job jobs (some reason) =
      seq-Runs IsSound (Ready n jobs) (note_reason-Runs n job jobs reason)
        (pure-Runs IsSound false (λ s v. v))
  consider_free-Runs n job jobs none =
      bind-Runs IsSound (λ r s. Ready n (job ∷ jobs) s × (r ≡ resources_fit s (demand job)))
        (read-Runs IsSound _)
        λ r.
          bind-Runs IsSound
            (λ fits s. Ready n (job ∷ jobs) s × (resources_fit s (demand job) ≡ ok fits))
            (post-Runs IsSound (λ fits s v. (v.0.0, sym v.0.1 ∙ v.1))
              (lift-Runs IsSound r
                (λ s v. (rw v.1 (resources_fit-Halts s (demand job)), v.0.sound))))
            (λ fits. start_if_fit-Runs n job jobs fits)

  consider-Runs :
      (n : ℕ) (job : JobRecord) (jobs : List JobRecord)
      → Runs IsSound (Ready n (job ∷ jobs)) (consider w job) (Next n jobs)
  unfolding consider
  consider-Runs n job jobs =
      bind-Runs IsSound (λ r s. Ready n (job ∷ jobs) s × (r ≡ pending_block_reason s w.now job))
        (read-Runs IsSound _)
        λ r.
          bind-Runs IsSound (λ o. Ready n (job ∷ jobs))
            (post-Runs IsSound (λ fits s v. v.0.0)
              (lift-Runs IsSound r
                (λ s v. (rw v.1 (pending_block_reason-Halts s w.now job), v.0.sound))))
            (λ o. consider_free-Runs n job jobs o)

  pub one_round-Runs :
      (n : ℕ) (jobs : List JobRecord) → Runs IsSound (Ready n jobs) (one_round w jobs) (After n)
  unfolding one_round
  one_round-Runs n [] = pure-Runs IsSound false (λ s v. v.sound)
  one_round-Runs n (job ∷ jobs) = bind-Runs IsSound (Next n jobs) (consider-Runs n job jobs) λ b.
      either-Runs IsSound (Next n jobs) b (pure-Runs IsSound true (λ s v. v))
        (one_round-Runs n jobs)

  pub next_jobs-Ready :
      (n : ℕ) (s : Store) → IsSound s → waiting s ≤ n → Ready n (next_pending_jobs s) s
  unfolding next_pending_jobs
  next_jobs-Ready n s v l = record {
    sound = v;
    current = order-All (Current s) (keep waits s.jobs) (waits-Current s v.ordered);
    few = l;
  }

  schedule_rounds-Runs :
      (fuel : ℕ)
      → Runs IsSound (λ s. IsSound s × (waiting s < fuel)) (schedule_rounds w fuel) (λ _. IsSound)
  unfolding schedule_rounds
  schedule_rounds-Runs zero =
      pre-Runs IsSound {P' = λ s. ⊥} (λ s v. absurd (omega (arith, v.1)))
        (post-Runs IsSound (λ a s v. absurd v.0) (lift-Runs IsSound diverges (λ s v. absurd v)))
  schedule_rounds-Runs (suc fuel) =
      bind-Runs IsSound (λ jobs. Ready fuel jobs)
        (post-Runs IsSound
          (λ jobs s v. rw v.1 (next_jobs-Ready fuel s v.0.0 (omega (arith, v.0.1))))
          (read-Runs IsSound _))
        λ jobs. bind-Runs IsSound (After fuel) (one_round-Runs fuel jobs) λ b.
          either-Runs IsSound (After fuel) b
            (pre-Runs IsSound (λ s v. (v.sound, v.fewer)) (schedule_rounds-Runs fuel))
            (pure-Runs IsSound tt (λ s v. v))

  pub schedule_pending_jobs-Runs : Runs IsSound IsSound (schedule_pending_jobs w) (λ _. IsSound)
  unfolding schedule_pending_jobs
  schedule_pending_jobs-Runs =
      bind-Runs IsSound (λ n s. IsSound s × (n ≡ waiting s)) (read-Runs IsSound waiting)
        λ n. pre-Runs IsSound (λ s v. (v.0, omega (arith, v.1))) (schedule_rounds-Runs (suc n))
