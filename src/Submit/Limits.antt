-- ===== src/Submit/Limits.antt =====
-- `parse_mem_mb` and `parse_time_limit_secs` of src/submit/sbatch.rs. Both compute in `u64`.
use slotd.Prelude.{
  ℕ, ◌+◌, ◌*◌, ◌/◌, ◌%◌, ◌^◌, min, List, [], ◌∷◌, ◌++◌, none, some, Text, lit, if◌then◌else◌,
  Result, ok, err, ◌>>=◌, message, ok_or,
}
use slotd.Strings.{
  trim, is_empty, is_digit, split, split_once, parse_u64, u64_max, to_ascii_uppercase, text_eq,
}

-- `find(|c| !c.is_ascii_digit())` and `split_at`.
unfoldable pub split_digits : Text → Text × Text
split_digits [] = ([], [])
split_digits (c ∷ s) =
    let (ds, rest) = split_digits s in if is_digit c then (c ∷ ds, rest) else ([], c ∷ s)

-- `saturating_mul` of `u64`.
unfoldable pub saturating_mul_u64 : ℕ → ℕ → ℕ
saturating_mul_u64 a b = min (a * b) u64_max

unfoldable pub scale_unit : ℕ → Text → Text → Result ℕ
unfolding saturating_mul_u64
scale_unit base normalized trimmed =
    if is_empty normalized
    then ok base
    else if text_eq normalized (lit "M")
    then ok base
    else if text_eq normalized (lit "K")
    then ok ((base + 1023) / 1024)
    else if text_eq normalized (lit "G")
    then ok (saturating_mul_u64 base 1024)
    else if text_eq normalized (lit "T")
    then ok (saturating_mul_u64 base (1024 * 1024))
    else err (message (lit "unsupported memory unit in value: " ++ trimmed))

unfoldable pub parse_mem_mb : Text → Result ℕ
parse_mem_mb value =
    let trimmed = trim value in
    let (number_part, unit_part) = split_digits trimmed in
    if is_empty trimmed
    then err (message (lit "memory value cannot be empty"))
    else (ok_or (parse_u64 number_part) (message (lit "invalid memory value: " ++ trimmed))
        >>= λ base. scale_unit base (to_ascii_uppercase (trim unit_part)) trimmed)

unfoldable pub parse_time_component : Text → Text → Result ℕ
parse_time_component value original =
    ok_or (parse_u64 value) (message (lit "invalid time limit: " ++ original))

-- Hours, minutes and seconds.
unfoldable pub time_parts : List Text → Text → Result (ℕ × ℕ × ℕ)
time_parts (m ∷ []) trimmed = do minutes ← parse_time_component m trimmed; ok (0, minutes, 0)
time_parts (m ∷ s ∷ []) trimmed = do
  minutes ← parse_time_component m trimmed
  seconds ← parse_time_component s trimmed
  ok (0, minutes, seconds)
time_parts (h ∷ m ∷ s ∷ []) trimmed = do
  hours ← parse_time_component h trimmed
  minutes ← parse_time_component m trimmed
  seconds ← parse_time_component s trimmed
  ok (hours, minutes, seconds)
time_parts _ trimmed = err (message (lit "invalid time limit: " ++ trimmed))

split_days : Text → Result (ℕ × Text)
split_days trimmed = elim (split_once b'-' trimmed) [
  | none ↦ ok (0, trimmed)
  | some (days, rest) ↦ do
    d ← ok_or (parse_u64 days) (message (lit "invalid time limit: " ++ trimmed))
    ok (d, rest)
]

-- The sum and its products wrap in a release build.
unfoldable pub total_secs : ℕ → ℕ → ℕ → ℕ → ℕ
total_secs days hours minutes seconds =
    (days * 86400 + hours * 3600 + minutes * 60 + seconds) % 2 ^ 64

unfoldable pub parse_time_limit_secs : Text → Result ℕ
unfolding split_days
parse_time_limit_secs value =
    let trimmed = trim value in
    if is_empty trimmed
    then err (message (lit "time limit cannot be empty"))
    else (split_days trimmed >>= λ p.
        time_parts (split b':' p.1) trimmed >>= λ t. ok (total_secs p.0 t.0 t.1 t.2))
