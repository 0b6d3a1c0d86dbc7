-- ===== src/Store/Current.antt =====
-- A job record that was read from the table and still stands there, waiting, with the same demand.
use slotd.Prelude.{
  ℕ, ◌≤◌, ◌<◌, ◌≡◌, refl, Bool, true, false, List, [], ◌∷◌, some, arith, if◌then◌else◌, keep,
  length, All, All-imp, Bool-cases, inl, inr, ◌∙◌,
}
use slotd.Job.{JobRecord}
use slotd.Store.Table.{Store, update_rows, update_job, find_job, get_job, has_id, waits}
use slotd.Store.Ids.{Rising, IsOrdered, find_job-only}
use slotd.Store.Sound.{SameDemand}

pub record Current (s : Store) (job : JobRecord) : Type 0 where
  pub row : JobRecord
  pub found : get_job s job.id ≡ some row
  pub same : SameDemand job row
  pub waiting : waits row ≡ true

above-All :
    (id lo : ℕ) (js : List JobRecord) (hi : ℕ)
    → id ≤ lo
    → Rising lo js hi
    → All (λ k. (j : JobRecord) → j.id ≡ id → has_id k.id j ≡ false) js
above-All id lo [] hi h r = tt
above-All id lo (k ∷ js) hi h r = ((λ j e. ground arith), above-All id k.id js hi (omega arith) r.1)

-- Reading a row by its id gives that row.
pub rows-found :
    (lo : ℕ) (js : List JobRecord) (hi : ℕ)
    → Rising lo js hi
    → All (λ job. find_job (has_id job.id) js ≡ some job) js
unfolding find_job
rows-found lo [] hi r = tt
rows-found lo (j ∷ js) hi r = (
  ground arith,
  later js (above-All j.id j.id js hi (omega arith) r.1) (rows-found j.id js hi r.1),
)
  where
    later :
        (ks : List JobRecord)
        → All (λ k. (i : JobRecord) → i.id ≡ j.id → has_id k.id i ≡ false) ks
        → All (λ job. find_job (has_id job.id) js ≡ some job) ks
        → All (λ job. find_job (has_id job.id) (j ∷ js) ≡ some job) ks
    later [] a b = tt
    later (k ∷ ks) a b = (rw (a.0 j refl) b.0, later ks a.1 b.1)

keep-both {κ} :
    (Q : JobRecord → Type κ) (p : JobRecord → Bool) (js : List JobRecord)
    → All Q js
    → All (λ j. Q j × (p j ≡ true)) (keep p js)
unfolding keep
keep-both Q p [] a = tt
keep-both Q p (j ∷ js) a = elim (Bool-cases (p j)) [
  | inl e ↦ rw e ((a.0, e), keep-both Q p js a.1)
  | inr e ↦ rw e (keep-both Q p js a.1)
]

pub waits-Current : (s : Store) → IsOrdered s → All (Current s) (keep waits s.jobs)
unfolding get_job
waits-Current s r =
    All-imp _ _ (keep waits s.jobs)
      (λ j h. record {
        row = j;
        found = h.0;
        same = record {
          same_cpus = refl;
          same_memory = refl;
          same_gpus = refl;
          same_exclusive = refl;
        };
        waiting = h.1;
      })
      (keep-both _ waits s.jobs (rows-found 0 s.jobs s.last_id r))

-- What a statement on one id does to the row of another, or of the same.
pub find-update :
    (id k : ℕ) (f : JobRecord → JobRecord) (js : List JobRecord) (row : JobRecord)
    → ((j : JobRecord) → (f j).id ≡ j.id)
    → find_job (has_id id) js ≡ some row
    → find_job (has_id id) (update_rows (has_id k) f js)
      ≡ some (if has_id k row then f row else row)
unfolding find_job update_rows
find-update id k f [] row same e = cc
find-update id k f (j ∷ js) row same e = ground (arith, find-update id k f js row same, same j)

pub Current-only :
    (s : Store) (job : JobRecord)
    → IsOrdered s
    → Current s job
    → All (λ j. has_id job.id j ≡ true → SameDemand job j) s.jobs
unfolding get_job
Current-only s job r c =
    All-imp _ _ s.jobs (λ j h e. rw (h e) c.same)
      (find_job-only job.id 0 s.jobs s.last_id c.row r c.found)

pub Current-waits :
    (s : Store) (job : JobRecord)
    → IsOrdered s
    → Current s job
    → All (λ j. has_id job.id j ≡ true → waits j ≡ true) s.jobs
unfolding get_job
Current-waits s job r c =
    All-imp _ _ s.jobs (λ j h e. rw (h e) c.waiting)
      (find_job-only job.id 0 s.jobs s.last_id c.row r c.found)

-- Writing a reason to one waiting job leaves every waiting job current.
pub record Noted (j k : JobRecord) : Type 0 where
  pub same_id : k.id ≡ j.id
  pub same : SameDemand j k
  pub waiting : waits j ≡ true → waits k ≡ true

pub update-Current :
    (k : ℕ) (f : JobRecord → JobRecord) (s : Store) (job : JobRecord)
    → ((j : JobRecord) → Noted j (f j))
    → Current s job
    → Current (update_job k f s) job
unfolding get_job update_job
update-Current k f s job h c = elim (Bool-cases (has_id k c.row)) [
  | inl e ↦ record {
    row = f c.row;
    found = rw (found, e) refl;
    same = record {
      same_cpus = (h c.row).same.same_cpus ∙ c.same.same_cpus;
      same_memory = (h c.row).same.same_memory ∙ c.same.same_memory;
      same_gpus = (h c.row).same.same_gpus ∙ c.same.same_gpus;
      same_exclusive = (h c.row).same.same_exclusive ∙ c.same.same_exclusive;
    };
    waiting = (h c.row).waiting c.waiting;
  }
  | inr e ↦ record { row = c.row; found = rw (found, e) refl; same = c.same; waiting = c.waiting }
]
  where
    found :
        find_job (has_id job.id) (update_rows (has_id k) f s.jobs)
        ≡ some (if has_id k c.row then f c.row else c.row)
    found = find-update job.id k f s.jobs c.row (λ j. (h j).same_id) c.found

-- The number of waiting jobs.
pub waits-note :
    (id : ℕ) (f : JobRecord → JobRecord) (js : List JobRecord)
    → All (λ j. has_id id j ≡ true → waits j ≡ true) js
    → length (keep waits (update_rows (has_id id) f js)) ≤ length (keep waits js)
unfolding keep update_rows
waits-note id f [] a = omega arith
waits-note id f (j ∷ js) a = ground (arith, waits-note id f js a.1, a.0)

waits-le :
    (id : ℕ) (f : JobRecord → JobRecord) (js : List JobRecord)
    → ((j : JobRecord) → waits (f j) ≡ false)
    → length (keep waits (update_rows (has_id id) f js)) ≤ length (keep waits js)
unfolding keep update_rows
waits-le id f [] a = omega arith
waits-le id f (j ∷ js) a = ground (arith, waits-le id f js a, a j)

pub waits-start :
    (id : ℕ) (f : JobRecord → JobRecord) (js : List JobRecord) (row : JobRecord)
    → ((j : JobRecord) → waits (f j) ≡ false)
    → find_job (has_id id) js ≡ some row
    → waits row ≡ true
    → length (keep waits (update_rows (has_id id) f js)) < length (keep waits js)
unfolding find_job keep update_rows
waits-start id f [] row a e w = cc
waits-start id f (j ∷ js) row a e w = elim (Bool-cases (has_id id j)) [
  | inl h ↦ rw (h, a j) (ground (arith, waits-le id f js a))
  | inr h ↦ rw h (ground (arith, waits-start id f js row a))
]
