-- ===== src/Store/Claims.antt =====
-- What the running jobs of the table hold together (src/store/resource_accounting.rs).
use slotd.Prelude.{
  ℕ, ◌+◌, ◌≤◌, ◌≡◌, refl, Bool, true, false, ◌&&◌, List, [], ◌∷◌, ◌++◌, none, arith, if◌then◌else◌,
  keep, length, All, Bool-cases, inl, inr,
}
use slotd.Prelude.Sums.{sum_by}
use slotd.Job.{JobRecord}
use slotd.Store.Table.{
  Store, update_rows, has_id, holds, any_running_exclusive_job, any_running_top_level_job,
}
use slotd.Store.Usage.{holders}
use slotd.Store.Ids.{Rising, All-above}

-- The sum of `f` over the rows that hold resources.
unfoldable pub claimed : (JobRecord → ℕ) → List JobRecord → ℕ
claimed f [] = 0
claimed f (j ∷ js) = (if holds j then f j else 0) + claimed f js

abbrev pub one_each : JobRecord → ℕ
one_each j = 1

abbrev pub exclusive_of : JobRecord → ℕ
exclusive_of j = if j.exclusive then 1 else 0

pub sum-holders :
    (f : JobRecord → ℕ) (js : List JobRecord) → sum_by f (holders none js) ≡ claimed f js
unfolding sum_by holders claimed
sum-holders f [] = refl
sum-holders f (j ∷ js) = ground (arith, sum-holders f js)

pub claimed-update :
    (g : JobRecord → ℕ) (p : JobRecord → Bool) (f : JobRecord → JobRecord) (js : List JobRecord)
    → All (λ j. p j ≡ true → (g (f j) ≡ g j) × (holds (f j) ≡ true → holds j ≡ true)) js
    → claimed g (update_rows p f js) ≤ claimed g js
unfolding claimed update_rows
claimed-update g p f [] a = omega arith
claimed-update g p f (j ∷ js) a = elim (Bool-cases (p j)) [
  | inl e ↦
      let same = a.0 e in
      let rest = claimed-update g p f js a.1 in
      rw e (grow (holds (f j)) (holds j) (g (f j)) (g j) _ _ same.0 same.1 rest)
  | inr e ↦ rw e (omega (arith, claimed-update g p f js a.1))
]
  where
    grow :
        (b c : Bool) (x y m n : ℕ)
        → x ≡ y
        → (b ≡ true → c ≡ true)
        → m ≤ n
        → (if b then x else 0) + m ≤ (if c then y else 0) + n
    grow true true x y m n e h l = omega arith
    grow true false x y m n e h l = cc (h refl)
    grow false c x y m n e h l = omega arith

pub claimed-untouched :
    (g : JobRecord → ℕ) (p : JobRecord → Bool) (f : JobRecord → JobRecord) (js : List JobRecord)
    → All (λ j. p j ≡ false) js
    → claimed g (update_rows p f js) ≡ claimed g js
unfolding claimed update_rows
claimed-untouched g p f [] a = refl
claimed-untouched g p f (j ∷ js) a = rw a.0 (omega (arith, claimed-untouched g p f js a.1))

-- One row has the id, so its demand is added at most once.
pub claimed-start :
    (g : JobRecord → ℕ) (id n : ℕ) (f : JobRecord → JobRecord) (lo : ℕ) (js : List JobRecord)
    (hi : ℕ)
    → Rising lo js hi
    → All (λ j. has_id id j ≡ true → g (f j) ≤ n) js
    → claimed g (update_rows (has_id id) f js) ≤ claimed g js + n
unfolding claimed update_rows
claimed-start g id n f lo [] hi r a = omega arith
claimed-start g id n f lo (j ∷ js) hi r a = elim (Bool-cases (has_id id j)) [
  | inl e ↦
      rw (e, claimed-untouched g (has_id id) f js (All-above id j.id js hi (ground arith) r.1))
        (ground (arith, a.0 e))
  | inr e ↦ rw e (omega (arith, claimed-start g id n f j.id js hi r.1 a.1))
]

pub claimed-append :
    (g : JobRecord → ℕ) (js : List JobRecord) (j : JobRecord)
    → holds j ≡ false
    → claimed g (js ++ j ∷ []) ≡ claimed g js
unfolding claimed
claimed-append g [] j h = rw h refl
claimed-append g (k ∷ js) j h = omega (arith, claimed-append g js j h)

length-holds : (js : List JobRecord) → length (keep holds js) ≡ claimed one_each js
unfolding keep claimed
length-holds [] = refl
length-holds (j ∷ js) = ground (arith, length-holds js)

length-exclusive :
    (js : List JobRecord) → length (keep (λ j. holds j && j.exclusive) js) ≡ claimed exclusive_of js
unfolding keep claimed
length-exclusive [] = refl
length-exclusive (j ∷ js) = ground (arith, length-exclusive js)

pub none_running : (s : Store) → any_running_top_level_job s ≡ false → claimed one_each s.jobs ≡ 0
unfolding any_running_top_level_job
none_running s h = ground (arith, length-holds s.jobs)

pub none_exclusive :
    (s : Store) → any_running_exclusive_job s ≡ false → claimed exclusive_of s.jobs ≡ 0
unfolding any_running_exclusive_job
none_exclusive s h = ground (arith, length-exclusive s.jobs)
