-- ===== src/Daemon/Stays.antt =====
-- One round of `schedule_pending_jobs` of src/runtime/daemon.rs that starts no job.
use slotd.Prelude.{
  ℕ, ◌≡◌, refl, ap, sym, subst, ◌∙◌, Bool, true, false, List, [], ◌∷◌, map, Option, none, some,
  Text, ℤ, arith, All, Result, ok, err, diverges, ◌>>=◌, Bool-cases, inl, inr,
}
use slotd.Job.{
  JobRecord, JobState, pending, running, completing, completed, failed, cancelled, timeout,
  out_of_memory, state_eq,
}
use slotd.Store.{Store, mark_state, update_job, update_rows, has_id, is_pending}
use slotd.Runtime.{World, Daemon, M, and_then, pure, lift, read, on_store}
use slotd.Runtime
use slotd.Daemon.Fit.{resources_fit}
use slotd.Daemon.Dependency.{pending_block_reason}
use slotd.Daemon.Schedule.{
  demand, start_job, note_reason, start_if_fit, consider_free, consider, one_round,
}
use slotd.Daemon.Bare.{bare, bare_job, pending_block_reason-bare, resources_fit-bare}

-- May the job start now? No reason holds it back, and what it asks for is there.
unfoldable pub can_start : Store → ℤ → JobRecord → Result Bool
can_start s now j = pending_block_reason s now j >>= λ reason. elim reason [
  | some r ↦ ok false
  | none ↦ resources_fit s (demand j)
]

pub can_start-bare :
    (s : Store) (now : ℤ) (j : JobRecord) → can_start (bare s) now j ≡ can_start s now j
unfolding can_start
can_start-bare s now j =
    ap
      (λ (r : Result (Option Text)). r >>= λ reason. elim reason [
        | some r' ↦ ok false
        | none ↦ resources_fit (bare s) (demand j)
      ])
      (pending_block_reason-bare s now j)
    ∙ ap
        (λ (fit : Result Bool). pending_block_reason s now j >>= λ reason. elim reason [
          | some r' ↦ ok false
          | none ↦ fit
        ])
        (resources_fit-bare s (demand j))

-- A chain that returns a value is the rest of the chain, from where its first step returned one.
and_then-ok :
    {A B : Type 0} (r : Result A × Daemon) (f : A → M B) (b : B)
    → (and_then r f).0 ≡ ok b
    → (a : A) × (r.0 ≡ ok a) × ((f a r.1).0 ≡ ok b) × (and_then r f ≡ f a r.1)
unfolding and_then
and_then-ok (ok a, d) f b h = (a, refl, h, refl)
and_then-ok (err e, d) f b h = ground arith
and_then-ok (diverges, d) f b h = ground arith

-- The rows with the job's id wait. This does not depend on their reasons.
abbrev pub Waits : JobRecord → Store → Type 0
Waits job s = All (λ k. has_id job.id k ≡ true → is_pending k ≡ true) (map bare_job s.jobs)

pending_state : (j : JobRecord) → is_pending j ≡ true → j.state ≡ pending
pending_state j h = only j.state h
  where
    only : (st : JobState) → state_eq st pending ≡ true → st ≡ pending
    only pending h = refl
    only running h = ground arith
    only completing h = ground arith
    only completed h = ground arith
    only failed h = ground arith
    only cancelled h = ground arith
    only timeout h = ground arith
    only out_of_memory h = ground arith

rows-bare :
    (id : ℕ) (reason : Option Text) (js : List JobRecord)
    → All (λ k. has_id id k ≡ true → is_pending k ≡ true) (map bare_job js)
    → map bare_job
        (update_rows (has_id id) (λ j. record j { state = pending; state_reason = reason }) js)
      ≡ map bare_job js
unfolding update_rows
rows-bare id reason [] h = refl
rows-bare id reason (j ∷ js) h = elim (Bool-cases (has_id id j)) [
  | inl b ↦
      rw (b, rows-bare id reason js h.1)
        (ap (λ (st : JobState). record (bare_job j) { state = st } ∷ map bare_job js)
          (sym (pending_state (bare_job j) (h.0 b))))
  | inr b ↦ rw (b, rows-bare id reason js h.1) refl
]

mark_state-bare :
    (job : JobRecord) (reason : Text) (s : Store)
    → Waits job s
    → bare (mark_state job.id pending (some reason) s) ≡ bare s
unfolding mark_state update_job
mark_state-bare job reason s h =
    ap (λ (js : List JobRecord). record s { jobs = js }) (rows-bare job.id _ s.jobs h)

-- What a job that is not started leaves: the table but for reasons, in which the job cannot start.
record Stays (w : World) (job : JobRecord) (s later : Store) : Type 0 where
  unchanged : bare later ≡ bare s
  refused : can_start s w.now job ≡ ok false

module _ (w : World) where
  noted_Stays :
      (job : JobRecord) (reason : Text) (d : Daemon)
      → Waits job d.store
      → can_start d.store w.now job ≡ ok false
      → Stays w job d.store (Runtime.◌>>◌ (note_reason job reason) (pure false) d).1.store
  unfolding note_reason Runtime.◌>>◌ on_store pure and_then
  noted_Stays job reason d h r = record {
    unchanged = mark_state-bare job reason d.store h;
    refused = r;
  }

  started_not :
      (job : JobRecord) (d : Daemon)
      → (Runtime.◌>>◌ (start_job w job) (pure true) d).0 ≡ ok false
      → ⊥
  unfolding Runtime.◌>>◌ pure
  started_not job d e =
      let (a, first, last, whole) = and_then-ok (start_job w job d) (λ done. pure true) false e in
      ground arith

  start_if_fit-Stays :
      (job : JobRecord) (d : Daemon) (fits : Bool)
      → Waits job d.store
      → can_start d.store w.now job ≡ ok fits
      → (start_if_fit w job fits d).0 ≡ ok false
      → Stays w job d.store (start_if_fit w job fits d).1.store
  unfolding start_if_fit
  start_if_fit-Stays job d true h r e = absurd (started_not job d e)
  start_if_fit-Stays job d false h r e = noted_Stays job _ d h r

  lifted-Stays :
      (job : JobRecord) (d : Daemon) (fit : Result Bool)
      → Waits job d.store
      → can_start d.store w.now job ≡ fit
      → (Runtime.◌>>=◌ (lift fit) (start_if_fit w job) d).0 ≡ ok false
      → Stays w job d.store (Runtime.◌>>=◌ (lift fit) (start_if_fit w job) d).1.store
  unfolding Runtime.◌>>=◌ lift and_then
  lifted-Stays job d (ok fits) h r e = start_if_fit-Stays job d fits h r e
  lifted-Stays job d (err x) h r e = ground arith
  lifted-Stays job d diverges h r e = ground arith

  consider_free-Stays :
      (job : JobRecord) (d : Daemon) (reason : Result (Option Text))
      → Waits job d.store
      → pending_block_reason d.store w.now job ≡ reason
      → (Runtime.◌>>=◌ (lift reason) (consider_free w job) d).0 ≡ ok false
      → Stays w job d.store (Runtime.◌>>=◌ (lift reason) (consider_free w job) d).1.store
  unfolding Runtime.◌>>=◌ lift and_then consider_free can_start read
  consider_free-Stays job d (ok (some reason)) h r e = noted_Stays job reason d h (rw r refl)
  consider_free-Stays job d (ok none) h r e =
      lifted-Stays job d (resources_fit d.store (demand job)) h (rw r refl) e
  consider_free-Stays job d (err x) h r e = ground arith
  consider_free-Stays job d diverges h r e = ground arith

  consider-Stays :
      (job : JobRecord) (d : Daemon)
      → Waits job d.store
      → (consider w job d).0 ≡ ok false
      → Stays w job d.store (consider w job d).1.store
  unfolding consider Runtime.◌>>=◌ read and_then
  consider-Stays job d h e =
      consider_free-Stays job d (pending_block_reason d.store w.now job) h refl e

  abbrev pub Refused : List JobRecord → Daemon → Daemon → Type 0
  Refused jobs d later =
      (bare later.store ≡ bare d.store)
      × All (λ job. can_start (bare d.store) w.now job ≡ ok false) jobs

  -- What a round does behind its first job, whose answer is `r`.
  round_rest :
      (job : JobRecord) (jobs : List JobRecord) (d : Daemon) (r : Result Bool × Daemon)
      → All (λ j. Waits j d.store) jobs
      → (r.0 ≡ ok false → Stays w job d.store r.1.store)
      → ((later : Daemon)
          → All (λ j. Waits j later.store) jobs
          → (one_round w jobs later).0 ≡ ok false
          → Refused jobs later (one_round w jobs later).1)
      → (and_then r (λ b. elim b [ true ↦ pure true | false ↦ one_round w jobs ])).0 ≡ ok false
      → Refused
          (job ∷ jobs)
          d
          (and_then r (λ b. elim b [ true ↦ pure true | false ↦ one_round w jobs ])).1
  unfolding and_then
  round_rest job jobs d (ok true, later) h stays rest e = absurd (unfold pure in ground arith)
  round_rest job jobs d (ok false, later) h stays rest e =
      let st = stays refl in
      let same = st.unchanged in
      let (unchanged, refused) =
        rest later
          (subst
            (λ (s : Store).
              All (λ j. All (λ k. has_id j.id k ≡ true → is_pending k ≡ true) s.jobs) jobs)
            (sym same) h)
          e in
      (
        unchanged ∙ same,
        (
          can_start-bare d.store w.now job ∙ st.refused,
          subst (λ (s : Store). All (λ j. can_start s w.now j ≡ ok false) jobs) same refused,
        ),
      )
  round_rest job jobs d (err x, later) h stays rest e = absurd (ground arith)
  round_rest job jobs d (diverges, later) h stays rest e = absurd (ground arith)

  -- A round that starts nothing leaves the table but for reasons, and no job of it can start.
  pub one_round-Stays :
      (jobs : List JobRecord) (d : Daemon)
      → All (λ job. Waits job d.store) jobs
      → (one_round w jobs d).0 ≡ ok false
      → Refused jobs d (one_round w jobs d).1
  unfolding one_round Runtime.◌>>=◌
  one_round-Stays [] d h e = (unfold pure in refl, tt)
  one_round-Stays (job ∷ jobs) d h e =
      round_rest job jobs d (consider w job d) h.1 (consider-Stays job d h.0) (one_round-Stays jobs)
        e
