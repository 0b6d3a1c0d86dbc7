-- ===== src/Store/Rooms.antt =====
-- Room for a job, under the statements of src/store that start no job.
use slotd.Prelude.{ℕ, suc, ◌≤◌, ◌≡◌, refl, Bool, true, List, [], ◌∷◌, arith, All, All-imp}
use slotd.Job.{JobRecord}
use slotd.Store.Table.{Store, update_rows}
use slotd.Store.Creation.{insert_row}
use slotd.Store.Usage.{cpus_of, memory_of, gpus_of}
use slotd.Store.Ids.{Rising}
use slotd.Store.Claims.{claimed, one_each, exclusive_of, claimed-update, claimed-append}
use slotd.Store.Invariant.{Kept, Changed, Fresh}
use slotd.Store.Sound.{IsSound, IsSound-Kept, Room}

pub Rising-below :
    (lo : ℕ) (js : List JobRecord) (hi : ℕ) → Rising lo js hi → (lo ≤ hi) × All (λ j. j.id ≤ hi) js
Rising-below lo [] hi r = (r, tt)
Rising-below lo (j ∷ js) hi r =
    let rest = Rising-below j.id js hi r.1 in (omega (arith, r.0, rest.0), (rest.0, rest.1))

module _ (job : JobRecord) where
  -- The table is sound and has room for `job`.
  abbrev pub HasRoom : Store → Type 0
  HasRoom s = IsSound s × Room s job

  update-Room :
      (p : JobRecord → Bool) (f : JobRecord → JobRecord) (s : Store)
      → All (λ j. p j ≡ true → Changed j (f j)) s.jobs
      → Room s job
      → Room (record s { jobs = update_rows p f s.jobs }) job
  update-Room p f s a v = record {
    cpus = omega (arith, claims cpus_of (λ j k c. c.same_cpus), v.cpus);
    memory = omega (arith, claims memory_of (λ j k c. c.same_memory), v.memory);
    gpus = omega (arith, claims gpus_of (λ j k c. c.same_gpus), v.gpus);
    no_exclusive =
        omega (arith, claims exclusive_of (λ j k c. exclusive_same j k c), v.no_exclusive);
    alone = λ e. omega (arith, claims one_each (λ j k c. refl), v.alone e);
  }
    where
      claims :
          (g : JobRecord → ℕ)
          → ((j k : JobRecord) → Changed j k → g k ≡ g j)
          → claimed g (update_rows p f s.jobs) ≤ claimed g s.jobs
      claims g same =
          claimed-update g p f s.jobs
            (All-imp _ _ s.jobs (λ j h e. (same j (f j) (h e), (h e).no_claim)) a)

      exclusive_same : (j k : JobRecord) → Changed j k → exclusive_of k ≡ exclusive_of j
      exclusive_same j k c = rw c.same_exclusive

  insert-Room :
      (row : ℕ → JobRecord) (s : Store) → Fresh row → Room s job → Room (insert_row row s) job
  unfolding insert_row
  insert-Room row s f v =
      let new = row (suc s.last_id) in
      let idle = f.no_claim (suc s.last_id) in
      record {
        cpus = omega (arith, claimed-append cpus_of s.jobs new idle, v.cpus);
        memory = omega (arith, claimed-append memory_of s.jobs new idle, v.memory);
        gpus = omega (arith, claimed-append gpus_of s.jobs new idle, v.gpus);
        no_exclusive = omega (arith, claimed-append exclusive_of s.jobs new idle, v.no_exclusive);
        alone = λ e. omega (arith, claimed-append one_each s.jobs new idle, v.alone e);
      }

  pub HasRoom-Kept : Kept HasRoom
  HasRoom-Kept = record {
    ordered = λ s v. v.0.ordered;
    update = λ p f s a v. (IsSound-Kept.update p f s a v.0, update-Room p f s a v.1);
    insert = λ row s f v. (IsSound-Kept.insert row s f v.0, insert-Room row s f v.1);
  }
