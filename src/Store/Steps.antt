-- ===== src/Store/Steps.antt =====
-- The ids of steps: `next_step_id_query` of src/store/mod.rs.
use slotd.Prelude.{
  ℕ, max, none, refl, Option, false, ◌⊎◌, ◌<◌, ◌≤◌, ◌%◌, ◌^◌, ◌-◌, ◌≡◌, true, List, [], ◌∷◌, some,
  arith, All, All-imp, if◌then◌else◌, Bool-cases, inl, inr,
}
use slotd.Job.{JobRecord}
use slotd.Store.Table.{opt_eq}
use slotd.Store.Creation.{next_step_id, after_steps, after_step}

-- The step ids that the parent has, by what holds of them.
abbrev pub StepIds : (ℕ → Type 0) → ℕ → List JobRecord → Type 0
StepIds P parent =
    All (λ j. opt_eq j.parent_job_id parent ≡ true → (n : ℕ) → j.step_id ≡ some n → P n)

after_steps-above :
    (parent : ℕ) (js : List JobRecord) → StepIds (λ n. n < after_steps parent js) parent js
unfolding after_steps after_step
after_steps-above parent [] = tt
after_steps-above parent (j ∷ js) = (
  (λ h n e. rw (h, e) (omega arith)),
  All-imp _ _ js (λ k u h n e. later k (u h n e)) (after_steps-above parent js),
)
  where
    later :
        (k : JobRecord) {n : ℕ}
        → n < after_steps parent js
        → n
          < max
              (if opt_eq j.parent_job_id parent then after_step j.step_id else 0)
              (after_steps parent js)
    later k l = omega arith

after_steps-below :
    (bound parent : ℕ) (js : List JobRecord)
    → StepIds (λ n. n < bound) parent js
    → after_steps parent js ≤ bound
unfolding after_steps after_step
after_steps-below bound parent [] h = omega arith
after_steps-below bound parent (j ∷ js) h =
    let rest = after_steps-below bound parent js h.1 in
    own (Bool-cases (opt_eq j.parent_job_id parent)) rest
  where
    own :
        (opt_eq j.parent_job_id parent ≡ true) ⊎ (opt_eq j.parent_job_id parent ≡ false)
        → after_steps parent js ≤ bound
        → max
            (if opt_eq j.parent_job_id parent then after_step j.step_id else 0)
            (after_steps parent js)
          ≤ bound
    own (inr b) l = rw b (omega (arith, l))
    own (inl b) l = rw b (by_id j.step_id (h.0 b))
      where
        by_id :
            (o : Option ℕ)
            → ((n : ℕ) → o ≡ some n → n < bound)
            → max (after_step o) (after_steps parent js) ≤ bound
        by_id none k = omega (arith, l)
        by_id (some n) k = omega (arith, l, k n refl)

-- While no step of the parent has the last id of a u32, the id of a new step is a u32 above every step id
-- that its parent has.
pub next_step_id-above :
    (parent : ℕ) (js : List JobRecord)
    → StepIds (λ n. n < 2 ^ 32 - 1) parent js
    → StepIds (λ n. n < next_step_id parent js) parent js × (next_step_id parent js < 2 ^ 32)
unfolding next_step_id
next_step_id-above parent js h =
    let low = after_steps-below (2 ^ 32 - 1) parent js h in
    let same : (after_steps parent js % 2 ^ 32) ≡ after_steps parent js = omega arith in
    rw same (after_steps-above parent js, omega arith)
