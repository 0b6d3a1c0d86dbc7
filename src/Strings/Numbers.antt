-- ===== src/Strings/Numbers.antt =====
-- `str::parse` for the integer types, and `to_string`.
use slotd.Prelude.{
  ℕ, zero, suc, ◌+◌, ◌-◌, ◌*◌, ◌/◌, ◌%◌, ◌^◌, Bool, ◌&&◌, [], ◌∷◌, Option, none, some, Text, leb,
  ◌==◌, if◌then◌else◌, ℤ, pos, negsuc, ◌++◌, length,
}
use slotd.Strings.Defs.{repeat_char}

unfoldable pub is_digit : ℕ → Bool
is_digit c = leb b'0' c && leb c b'9'

-- The value of a run of digits behind `n`.
unfoldable pub digits_value : ℕ → Text → Option ℕ
unfolding is_digit
digits_value n [] = some n
digits_value n (c ∷ s) = if is_digit c then digits_value (n * 10 + (c - b'0')) s else none

-- One digit or more, and no more than `bound`.
unfoldable pub bounded_value : ℕ → Text → Option ℕ
unfolding digits_value
bounded_value bound [] = none
bounded_value bound (c ∷ s) = elim (digits_value 0 (c ∷ s)) [
  | none ↦ none
  | some n ↦ if leb n bound then some n else none
]

-- A type with no sign: a `+` may stand in front, a `-` is no digit.
unfoldable pub parse_unsigned : ℕ → Text → Option ℕ
unfolding bounded_value
parse_unsigned bound [] = none
parse_unsigned bound (c ∷ s) =
    if c == b'+' then bounded_value bound s else bounded_value bound (c ∷ s)

abbrev negate : ℕ → ℤ
negate zero = pos 0
negate (suc n) = negsuc n

-- A signed type of 2 * half values.
unfoldable pub parse_signed : ℕ → Text → Option ℤ
unfolding bounded_value
parse_signed half [] = none
parse_signed half (c ∷ s) =
    if c == b'-'
    then elim (bounded_value half s) [ none ↦ none | some n ↦ some (negate n) ]
    else if c == b'+'
    then elim (bounded_value (half - 1) s) [ none ↦ none | some n ↦ some (pos n) ]
    else elim (bounded_value (half - 1) (c ∷ s)) [ none ↦ none | some n ↦ some (pos n) ]

abbrev pub u32_max : ℕ
u32_max = 2 ^ 32 - 1

abbrev pub u64_max : ℕ
u64_max = 2 ^ 64 - 1

abbrev pub i64_max : ℕ
i64_max = 2 ^ 63 - 1

unfoldable pub parse_u32 : Text → Option ℕ
unfolding parse_unsigned
parse_u32 = parse_unsigned u32_max

-- `u64`, and `usize` of a 64-bit target.
unfoldable pub parse_u64 : Text → Option ℕ
unfolding parse_unsigned
parse_u64 = parse_unsigned u64_max

unfoldable pub parse_i32 : Text → Option ℤ
unfolding parse_signed
parse_i32 = parse_signed (2 ^ 31)

unfoldable pub parse_i64 : Text → Option ℤ
unfolding parse_signed
parse_i64 = parse_signed (2 ^ 63)

-- The decimal digits of `n` in front of `out`; `n + 1` rounds are enough.
unfoldable pub emit_digits : ℕ → ℕ → Text → Text
emit_digits zero n out = out
emit_digits (suc f) n out =
    let rest = emit_digits f (n / 10) ((b'0' + n % 10) ∷ out) in if n == 0 then out else rest

unfoldable pub show_nat : ℕ → Text
unfolding emit_digits
show_nat n = if n == 0 then b'0' ∷ [] else emit_digits n n []

unfoldable pub show_int : ℤ → Text
unfolding show_nat
show_int (pos n) = show_nat n
show_int (negsuc n) = b'-' ∷ show_nat (suc n)

-- `{:0w}` of a number with no sign, and of a signed one: the sign counts.
unfoldable pub show_padded : ℕ → ℕ → Text
unfolding show_nat repeat_char
show_padded w n = repeat_char b'0' (w - length (show_nat n)) ++ show_nat n

unfoldable pub show_padded_int : ℕ → ℤ → Text
unfolding show_padded
show_padded_int w (pos n) = show_padded w n
show_padded_int w (negsuc n) = b'-' ∷ show_padded (w - 1) (suc n)
