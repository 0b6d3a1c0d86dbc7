-- ===== src/Submit/ArraySpec/Range.antt =====
-- The loop of `parse_array_segment` of src/submit/sbatch.rs at the end of the `i32` values.
use slotd.Prelude.{
  List, [], ◌∷◌, All, All-imp, negsuc, ok, ◌≤◌, ◌+◌, zero, suc, inl, inr, Bool-cases, false, ℕ,
  zero, suc, ◌^◌, ◌<◌, ◌≡◌, refl, true, ℤ, pos, negsuc, ◌+ℤ◌, ◌-ℤ◌, leb_ℤ, arith, diverges,
}
use slotd.Submit.ArraySpec.{i32_max, i32_add, push_range}

i32_add-below :
    (a : ℤ) (n : ℕ) → leb_ℤ a i32_max ≡ true → n < 2 ^ 31 → leb_ℤ (i32_add a (pos n)) i32_max ≡ true
unfolding i32_add ◌+ℤ◌ ◌-ℤ◌
i32_add-below (pos m) n h l = ground arith
i32_add-below (negsuc m) n h l = ground arith

-- The loop over a range that ends at the largest `i32` does not end, whatever the fuel: from any
-- `i32`, with any step that is an `i32`, the next id wraps around to a negative one.
pub push_range-diverges :
    (fuel : ℕ) (current : ℤ) (step : ℕ)
    → leb_ℤ current i32_max ≡ true
    → step < 2 ^ 31
    → push_range fuel current i32_max (pos step) ≡ diverges
unfolding push_range
push_range-diverges zero current step h l = refl
push_range-diverges (suc fuel) current step h l =
    rw
      (
        h,
        push_range-diverges fuel (i32_add current (pos step)) step (i32_add-below current step h l)
            l,
      )
      refl

i32_add-pos : (a b : ℕ) → a + b < 2 ^ 31 → i32_add (pos a) (pos b) ≡ pos (a + b)
unfolding i32_add ◌+ℤ◌ ◌-ℤ◌
i32_add-pos a b h = ground arith

-- The id is between two others.
abbrev pub Between : ℕ → ℕ → ℤ → Type 0
Between a e (pos n) = (a ≤ n) × (n ≤ e)
Between a e (negsuc n) = ⊥

Between-later : (a b e : ℕ) (i : ℤ) → a ≤ b → Between b e i → Between a e i
Between-later a b e (pos n) l h = (omega (arith, h.0), h.1)
Between-later a b e (negsuc n) l h = elim h [ ]

push_range-stops :
    (fuel : ℕ) (c e step : ℤ) → leb_ℤ c e ≡ false → push_range (suc fuel) c e step ≡ ok []
unfolding push_range
push_range-stops fuel c e step h = rw h refl

push_range-steps :
    (fuel : ℕ) (c e step : ℤ) (rest : List ℤ)
    → leb_ℤ c e ≡ true
    → push_range fuel (i32_add c step) e step ≡ ok rest
    → push_range (suc fuel) c e step ≡ ok (c ∷ rest)
unfolding push_range
push_range-steps fuel c e step rest h r = rw (h, r) refl

-- From an id that is no negative one, with a step of one or more, a range whose end and step together
-- are an `i32` returns: with as many rounds as there are ids from the first to the end, and one more,
-- the loop ends, and every id that it adds is between the first id and the end.
pub push_range-ends :
    (fuel a e step : ℕ)
    → e < a + fuel
    → e + suc step < 2 ^ 31
    → (ids : List ℤ) × (push_range (suc fuel) (pos a) (pos e) (pos (suc step)) ≡ ok ids)
      × All (Between a e) ids
push_range-ends zero a e step l h =
    ([], push_range-stops 0 (pos a) (pos e) (pos (suc step)) (ground arith), tt)
push_range-ends (suc fuel) a e step l h = elim (Bool-cases (leb_ℤ (pos a) (pos e))) [
  | inr b ↦ ([], push_range-stops (suc fuel) (pos a) (pos e) (pos (suc step)) b, tt)
  | inl b ↦
      let (ids, r, between) = push_range-ends fuel (a + suc step) e step (omega arith) h in
      (
        pos a ∷ ids,
        push_range-steps (suc fuel) (pos a) (pos e) (pos (suc step)) ids b
            (rw (i32_add-pos a (suc step) (ground arith)) r),
        (
          (omega arith, ground arith),
          All-imp _ _ ids (λ i u. Between-later a (a + suc step) e i (omega arith) u) between,
        ),
      )
]
