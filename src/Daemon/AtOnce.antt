-- ===== src/Daemon/AtOnce.antt =====
-- `submit_run` and `submit_alloc` of src/runtime/daemon.rs: requests that start a job at once.
use slotd.Prelude.{
  ℕ, ◌<◌, ◌≡◌, refl, sym, Bool, true, false, Option, none, some, arith, All-imp, Result, ok, err,
  diverges,
}
use slotd.Job.{JobRecord, SubmitRequest}
use slotd.Store.{
  Store, create_job, new_row, get_job, mark_running, mark_allocation_running, update_job, has_id,
}
use slotd.Store.Ids.{find_job_sound}
use slotd.Store.Invariant.{Started}
use slotd.Store.Creations.{create_job-Kept}
use slotd.Store.Sound.{IsSound, IsSound-Kept, start-IsSound}
use slotd.Store.Rooms.{HasRoom, HasRoom-Kept, Rising-below}
use slotd.Store.Newcomers.{asked, Only, start-Only, create_job-Made, Made}
use slotd.Runtime.{World, Daemon, M, and_then, store_call, ◌>>=◌, ◌>>◌, pure, read, lift}
use slotd.Runtime.Keeping.{Keeps, bind-Keeps, seq-Keeps, pure-Keeps, store_call-Keeps}
use slotd.Runtime.Runs.{Runs, Done-kept, bind-Runs, seq-Runs, pure-Runs, read-Runs, on_store-Runs}
use slotd.Runtime.Launching.{launch-Runs}
use slotd.Daemon.Fit.{resources_fit}
use slotd.Daemon.Capacity.{fits-Room}
use slotd.Daemon.Requests.{
  Response, submitted, request_demand, created, launch_found, launch_now, run_if, serve_run,
  mark_now, alloc_if, serve_alloc,
}

-- There is room for what `r` asks for, and the rows above `lo` ask for that.
record Prepared (r : SubmitRequest) (lo : ℕ) (s : Store) : Type 0 where
  room : HasRoom (asked r) s
  only : Only r lo s

start-Prepared :
    (r : SubmitRequest) (lo id : ℕ) (f : JobRecord → JobRecord) (s : Store)
    → lo < id
    → ((j : JobRecord) → Started j (f j))
    → Prepared r lo s
    → IsSound (update_job id f s)
start-Prepared r lo id f s l starts v =
    start-IsSound id (asked r) f s (All-imp _ _ s.jobs (λ j h e. h (ground arith)) v.only.same)
      starts v.room.0 v.room.1

found-above :
    (lo id : ℕ) (s : Store) (row : JobRecord) → lo < id → get_job s id ≡ some row → lo < row.id
unfolding get_job
found-above lo id s row l e = by_id (find_job_sound (has_id id) s.jobs row e)
  where
    by_id : has_id id row ≡ true → lo < row.id
    by_id h = ground arith

module _ (w : World) (r : SubmitRequest) (lo id : ℕ) (l : lo < id) where
  launch_found-Runs :
      (o : Option JobRecord)
      → Runs IsSound (λ s. Prepared r lo s × (o ≡ get_job s id)) (launch_found w o) (λ _. IsSound)
  unfolding launch_found
  launch_found-Runs none = pure-Runs IsSound tt (λ s v. v.0.room.0)
  launch_found-Runs (some row) =
      launch-Runs w row IsSound (λ s. Prepared r lo s × (some row ≡ get_job s id)) IsSound
        (λ s v. v.0.room.0)
        λ s pid gpus v.
          unfold mark_running in
          start-Prepared r lo row.id _ s (found-above lo id s row l (sym v.1))
            (λ j. record {
              same_id = refl;
              same_cpus = refl;
              same_memory = refl;
              same_gpus = refl;
              same_exclusive = refl;
              same_requeues = refl;
            })
            v.0

  launch_now-Runs : Runs IsSound (Prepared r lo) (launch_now w true id) (λ _. IsSound)
  unfolding launch_now
  launch_now-Runs =
      bind-Runs IsSound (λ o s. Prepared r lo s × (o ≡ get_job s id)) (read-Runs IsSound _)
        launch_found-Runs

  mark_now-Runs : Runs IsSound (Prepared r lo) (mark_now w true id) (λ _. IsSound)
  unfolding mark_now mark_allocation_running
  mark_now-Runs = on_store-Runs IsSound _ λ s v.
      start-Prepared r lo id _ s l
        (λ j. record {
          same_id = refl;
          same_cpus = refl;
          same_memory = refl;
          same_gpus = refl;
          same_exclusive = refl;
          same_requeues = refl;
        })
        v

module _ (w : World) (r : SubmitRequest) (k : ℕ → M (Unit {0})) (answer : ℕ → Response) where
  -- A job is created where there is room for it, and then started.
  start_created-IsSound :
      ((lo id : ℕ) → lo < id → Runs IsSound (Prepared r lo) (k id) (λ _. IsSound))
      → (d : Daemon) → HasRoom (asked r) d.store
      → IsSound ((created w r >>= λ id. k id >> pure (answer id)) d).1.store
  unfolding created store_call ◌>>=◌ and_then
  start_created-IsSound h d v =
      let x = create_job w.write_files w.now r d.store in
      let below = Rising-below 0 d.store.jobs d.store.last_id v.0.ordered in
      after x
        (create_job-Made r d.store.last_id w.write_files w.now d.store
          (start-Only r d.store.last_id d.store below.1 refl))
        (create_job-Kept (HasRoom (asked r)) (HasRoom-Kept (asked r)) w.write_files w.now r d.store
          v)
    where
      after :
          (x : Result ℕ × Store)
          → Made r d.store.last_id x
          → HasRoom (asked r) x.1
          → IsSound
              (and_then (x.0, record d { store = x.1 }) (λ id. k id >> pure (answer id))).1.store
      after (ok id, s) m u = Done-kept IsSound _ _ (
          (seq-Runs IsSound IsSound (h d.store.last_id id m.1)
              (pure-Runs IsSound (answer id) (λ t z. z))).apply
            (record d { store = s }) (record { room = u; only = m.0 }))
      after (err e, s) m u = u.0
      after (diverges, s) m u = u.0

module _ (w : World) (r : SubmitRequest) where
  -- A creation keeps the invariant.
  pub created-Keeps : Keeps IsSound (created w r)
  unfolding created
  created-Keeps =
      store_call-Keeps IsSound _
        (λ s v. create_job-Kept IsSound IsSound-Kept w.write_files w.now r s v)

  waiting_run-Keeps : (immediate : Bool) → Keeps IsSound (run_if w r immediate false)
  unfolding run_if launch_now
  waiting_run-Keeps true = pure-Keeps IsSound _
  waiting_run-Keeps false =
      bind-Keeps IsSound created-Keeps
        λ id. seq-Keeps IsSound (pure-Keeps IsSound _) (pure-Keeps IsSound _)

  waiting_alloc-Keeps : (immediate : Bool) → Keeps IsSound (alloc_if w r immediate false)
  unfolding alloc_if mark_now
  waiting_alloc-Keeps true = pure-Keeps IsSound _
  waiting_alloc-Keeps false =
      bind-Keeps IsSound created-Keeps
        λ id. seq-Keeps IsSound (pure-Keeps IsSound _) (pure-Keeps IsSound _)

  run_at_once-IsSound :
      (immediate : Bool) (d : Daemon)
      → HasRoom (asked r) d.store
      → IsSound (run_if w r immediate true d).1.store
  unfolding run_if
  run_at_once-IsSound true d v =
      start_created-IsSound w r (launch_now w true) submitted
        (λ lo id l. launch_now-Runs w r lo id l) d v
  run_at_once-IsSound false d v =
      start_created-IsSound w r (launch_now w true) submitted
        (λ lo id l. launch_now-Runs w r lo id l) d v

  alloc_at_once-IsSound :
      (immediate : Bool) (d : Daemon)
      → HasRoom (asked r) d.store
      → IsSound (alloc_if w r immediate true d).1.store
  unfolding alloc_if
  alloc_at_once-IsSound true d v =
      start_created-IsSound w r (mark_now w true) submitted (λ lo id l. mark_now-Runs w r lo id l) d
        v
  alloc_at_once-IsSound false d v =
      start_created-IsSound w r (mark_now w true) submitted (λ lo id l. mark_now-Runs w r lo id l) d
        v

  asked-Room :
      (s : Store) → IsSound s → resources_fit s (request_demand r) ≡ ok true → HasRoom (asked r) s
  unfolding asked new_row
  asked-Room s v e = (v, fits-Room s (asked r) v e)

  -- The check, and then one of two ways on.
  checked-IsSound :
      (next : Bool → M Response)
      → ((d : Daemon) → HasRoom (asked r) d.store → IsSound (next true d).1.store)
      → Keeps IsSound (next false)
      → (d : Daemon) → IsSound d.store
      → (fit : Result Bool) → resources_fit d.store (request_demand r) ≡ fit
      → IsSound (and_then (fit, d) next).1.store
  unfolding and_then
  checked-IsSound next h g d v (ok true) e = h d (asked-Room d.store v e)
  checked-IsSound next h g d v (ok false) e = g.apply d v
  checked-IsSound next h g d v (err x) e = v
  checked-IsSound next h g d v diverges e = v

  pub serve_run-Keeps : (immediate : Bool) → Keeps IsSound (serve_run w r immediate)
  unfolding serve_run ◌>>=◌ and_then read lift
  serve_run-Keeps immediate = record {
    apply = λ d v.
        checked-IsSound (run_if w r immediate) (run_at_once-IsSound immediate)
          (waiting_run-Keeps immediate) d v _ refl;
  }

  pub serve_alloc-Keeps : (immediate : Bool) → Keeps IsSound (serve_alloc w r immediate)
  unfolding serve_alloc ◌>>=◌ and_then read lift
  serve_alloc-Keeps immediate = record {
    apply = λ d v.
        checked-IsSound (alloc_if w r immediate) (alloc_at_once-IsSound immediate)
          (waiting_alloc-Keeps immediate) d v _ refl;
  }
