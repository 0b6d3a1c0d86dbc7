-- ===== src/Store/Ids.antt =====
-- Row ids: the rows stand in the order of their ids, none above the last id given, so that an id
-- names one row at most.
use slotd.Prelude.{
  ℕ, suc, ◌≤◌, ◌<◌, ◌≡◌, Bool, true, false, List, [], ◌∷◌, ◌++◌, some, arith, All, Bool-cases, inl,
  inr,
}
use slotd.Job.{JobRecord}
use slotd.Store.Table.{Store, update_rows, find_job, has_id}

abbrev pub Rising : ℕ → List JobRecord → ℕ → Type 0
Rising lo [] hi = lo ≤ hi
Rising lo (j ∷ js) hi = (lo < j.id) × Rising j.id js hi

abbrev pub IsOrdered : Store → Type 0
IsOrdered s = Rising 0 s.jobs s.last_id

pub Rising-lower :
    (a b : ℕ) (js : List JobRecord) (hi : ℕ) → a ≤ b → Rising b js hi → Rising a js hi
Rising-lower a b [] hi h r = omega arith
Rising-lower a b (j ∷ js) hi h r = (omega arith, r.1)

pub update_rows-Rising :
    (p : JobRecord → Bool) (f : JobRecord → JobRecord) (lo : ℕ) (js : List JobRecord) (hi : ℕ)
    → All (λ j. p j ≡ true → (f j).id ≡ j.id) js
    → Rising lo js hi
    → Rising lo (update_rows p f js) hi
unfolding update_rows
update_rows-Rising p f lo [] hi a r = r
update_rows-Rising p f lo (j ∷ js) hi a r = elim (Bool-cases (p j)) [
  | inl e ↦ rw e (rw (a.0 e) (r.0, update_rows-Rising p f j.id js hi a.1 r.1))
  | inr e ↦ rw e (r.0, update_rows-Rising p f j.id js hi a.1 r.1)
]

pub append-Rising :
    (lo : ℕ) (js : List JobRecord) (hi : ℕ) (j : JobRecord)
    → j.id ≡ suc hi
    → Rising lo js hi
    → Rising lo (js ++ j ∷ []) (suc hi)
append-Rising lo [] hi j e r = (omega arith, omega arith)
append-Rising lo (k ∷ js) hi j e r = (r.0, append-Rising k.id js hi j e r.1)

-- No row above `lo` has the id `lo` or less.
pub All-above :
    (id lo : ℕ) (js : List JobRecord) (hi : ℕ)
    → id ≤ lo
    → Rising lo js hi
    → All (λ j. has_id id j ≡ false) js
All-above id lo [] hi h r = tt
All-above id lo (j ∷ js) hi h r = (ground arith, All-above id j.id js hi (omega arith) r.1)

pub find_job_sound :
    (p : JobRecord → Bool) (js : List JobRecord) (job : JobRecord)
    → find_job p js ≡ some job
    → p job ≡ true
unfolding find_job
find_job_sound p [] job e = cc
find_job_sound p (j ∷ js) job e = elim (Bool-cases (p j)) [
  | inl h ↦ ground arith
  | inr h ↦ find_job_sound p js job (rw h at e)
]

-- The row that is found is the only one with its id.
pub find_job-only :
    (id lo : ℕ) (js : List JobRecord) (hi : ℕ) (job : JobRecord)
    → Rising lo js hi
    → find_job (has_id id) js ≡ some job
    → All (λ j. has_id id j ≡ true → j ≡ job) js
unfolding find_job
find_job-only id lo [] hi job r e = tt
find_job-only id lo (j ∷ js) hi job r e = elim (Bool-cases (has_id id j)) [
  | inl h ↦ ((λ _. ground arith), absent id js job (All-above id j.id js hi (ground arith) r.1))
  | inr h ↦ ((λ k. cc), find_job-only id j.id js hi job r.1 (rw h at e))
]
  where
    absent :
        (id : ℕ) (js : List JobRecord) (job : JobRecord)
        → All (λ j. has_id id j ≡ false) js
        → All (λ j. has_id id j ≡ true → j ≡ job) js
    absent id [] job a = tt
    absent id (j ∷ js) job a = ((λ k. cc), absent id js job a.1)
