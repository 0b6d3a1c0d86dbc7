-- ===== src/Submit/ArraySpec.antt =====
-- `parse_array_spec` of src/submit/sbatch.rs and its helpers. Task ids are `i32`, which wraps.
pub mod Range
use slotd.Prelude.{
  ℕ, zero, suc, ◌-◌, ◌^◌, Bool, true, false, List, [], ◌∷◌, ◌++◌, Option, none, some, Text, lit,
  if◌then◌else◌, ℤ, pos, negsuc, ◌+ℤ◌, ◌-ℤ◌, ltb_ℤ, leb_ℤ, eqb_ℤ, sort_by, Result, ok, err,
  diverges, ◌>>=◌, message, SlotdError, ok_or,
}
use slotd.Strings.{trim, is_empty, split, split_once, parse_i32, parse_u32}

pub record ArraySpec : Type 0 where
  pub task_ids : List ℤ
  pub limit : Option ℕ

abbrev pub i32_max : ℤ
i32_max = pos (2 ^ 31 - 1)

-- `a + b` on `i32` for a positive `b`: a release build wraps around.
unfoldable pub i32_add : ℤ → ℤ → ℤ
unfolding ◌+ℤ◌ ◌-ℤ◌
i32_add a b = let s = a +ℤ b in if ltb_ℤ i32_max s then s -ℤ pos (2 ^ 32) else s

-- `while current <= end { task_ids.push(current); current += step; }`, with fuel.
unfoldable pub push_range : ℕ → ℤ → ℤ → ℤ → Result (List ℤ)
unfolding i32_add
push_range zero current end step = diverges
push_range (suc fuel) current end step =
    let later : Result (List ℤ) =
      (push_range fuel (i32_add current step) end step >>= λ rest. ok (current ∷ rest)) in
    if leb_ℤ current end then later else ok []

-- More rounds than there are `i32` values.
abbrev pub range_fuel : ℕ
range_fuel = 2 ^ 32

unfoldable pub parse_array_task_id : Text → Text → Result ℤ
parse_array_task_id value original =
    ok_or (parse_i32 value) (message (lit "invalid array task id in: " ++ original))

segment_step : Text → Text → Result (Text × ℤ)
segment_step segment original = elim (split_once b':' segment) [
  | none ↦ ok (segment, pos 1)
  | some (range, step) ↦ do
    s ← ok_or (parse_i32 (trim step)) (message (lit "invalid array step: " ++ original))
    ok (trim range, s)
]

segment_ids : Text → ℤ → Text → Result (List ℤ)
segment_ids range_part step original = elim (split_once b'-' range_part) [
  | none ↦ do id ← parse_array_task_id (trim range_part) original; ok (id ∷ [])
  | some (start, end) ↦ do
    a ← parse_array_task_id (trim start) original
    z ← parse_array_task_id (trim end) original
    if ltb_ℤ z a
        then err (message (lit "invalid array range: " ++ original))
        else push_range range_fuel a z step
]

-- The ids that a segment adds to `task_ids`.
unfoldable pub parse_array_segment : Text → Text → Result (List ℤ)
unfolding segment_step segment_ids
parse_array_segment segment original =
    if is_empty segment
    then err (message (lit "invalid array specification: " ++ original))
    else (segment_step segment original >>= λ p.
        if leb_ℤ p.1 (pos 0)
        then err (message (lit "invalid array step: " ++ original))
        else segment_ids p.0 p.1 original)

unfoldable pub parse_segments : List Text → Text → Result (List ℤ)
unfolding parse_array_segment
parse_segments [] original = ok []
parse_segments (s ∷ ss) original = do
  ids ← parse_array_segment (trim s) original
  rest ← parse_segments ss original
  ok (ids ++ rest)

-- `dedup`: of equal neighbours the first stays.
unfoldable pub dedup_from : ℤ → List ℤ → List ℤ
dedup_from x [] = x ∷ []
dedup_from x (y ∷ ys) = if eqb_ℤ x y then dedup_from x ys else x ∷ dedup_from y ys

unfoldable pub dedup : List ℤ → List ℤ
unfolding dedup_from
dedup [] = []
dedup (x ∷ xs) = dedup_from x xs

unfoldable pub sort_ids : List ℤ → List ℤ
unfolding sort_by
sort_ids = sort_by leb_ℤ

split_limit : Text → Result (Text × Option ℕ)
split_limit trimmed = elim (split_once b'%' trimmed) [
  | none ↦ ok (trimmed, none)
  | some (expr, limit) ↦ do
    n ← ok_or (parse_u32 (trim limit)) (message (lit "invalid array limit: " ++ trimmed))
    ok (trim expr, some n)
]

checked_spec : List ℤ → Option ℕ → Text → Result ArraySpec
checked_spec [] limit trimmed =
    err (message (lit "array specification produced no tasks: " ++ trimmed))
checked_spec (x ∷ xs) limit trimmed = ok (record { task_ids = x ∷ xs; limit = limit })

unfoldable pub parse_array_spec : Text → Result ArraySpec
unfolding split_limit checked_spec
parse_array_spec value =
    let trimmed = trim value in
    if is_empty trimmed
    then err (message (lit "array specification cannot be empty"))
    else (split_limit trimmed >>= λ p. parse_segments (split b',' p.0) trimmed >>= λ ids.
        checked_spec (dedup (sort_ids ids)) p.1 trimmed)
