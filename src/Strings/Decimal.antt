-- ===== src/Strings/Decimal.antt =====
-- Numbers written in decimal and read again as `i64`.
use slotd.Prelude.{
  none, ◌*◌, ℕ, zero, suc, ◌/◌, ◌%◌, ◌+◌, ◌≤◌, ◌≡◌, refl, true, false, [], ◌∷◌, some, Text, ◌==◌,
  arith, inl, inr, Bool-cases, pos, leb, ◌^◌, ◌-◌,
}
use slotd.Strings.Defs.{is_empty, split_once}
use slotd.Strings.Numbers.{
  digits_value, emit_digits, is_digit, bounded_value, parse_signed, parse_i64, i64_max, show_nat,
}
use slotd.Strings.Laws.{digits_value-emit}

emit_digits-filled : (f n c : ℕ) (out : Text) → is_empty (emit_digits f n (c ∷ out)) ≡ false
unfolding emit_digits is_empty
emit_digits-filled zero n c out = refl
emit_digits-filled (suc f) n c out = elim (Bool-cases (n == 0)) [
  | inl e ↦ rw e refl
  | inr e ↦ rw e (emit_digits-filled f (n / 10) (b'0' + n % 10) (c ∷ out))
]

show_nat-filled : (n : ℕ) → is_empty (show_nat n) ≡ false
unfolding show_nat emit_digits
show_nat-filled n = elim (Bool-cases (n == 0)) [
  | inl e ↦ rw e (unfold is_empty in refl)
  | inr e ↦ rw e (filled n e)
]
  where
    filled : (n : ℕ) → (n == 0) ≡ false → is_empty (emit_digits n n []) ≡ false
    filled zero e = ground arith
    filled (suc n) e = rw e (emit_digits-filled n (suc n / 10) (b'0' + suc n % 10) [])

digits_value-show_nat : (n : ℕ) → digits_value 0 (show_nat n) ≡ some n
unfolding show_nat
digits_value-show_nat n = elim (Bool-cases (n == 0)) [
  | inl e ↦ rw e (unfold digits_value is_digit in ground arith)
  | inr e ↦ rw (e, digits_value-emit n n [] (omega arith)) (unfold digits_value in refl)
]

-- A number has no dot.
undotted : (m : ℕ) (s : Text) (n : ℕ) → digits_value m s ≡ some n → split_once b'.' s ≡ none
unfolding digits_value split_once
undotted m [] n h = refl
undotted m (c ∷ s) n h = elim (Bool-cases (is_digit c)) [
  | inl d ↦ rw (not_dot c d, undotted (m * 10 + (c - b'0')) s n (rw d at h)) refl
  | inr d ↦ ground (arith, rw d at h)
]
  where
    not_dot : (c : ℕ) → is_digit c ≡ true → (c == b'.') ≡ false
    not_dot c d = unfold is_digit in ground arith

pub split_once-show_nat : (n : ℕ) → split_once b'.' (show_nat n) ≡ none
split_once-show_nat n = undotted 0 (show_nat n) n (digits_value-show_nat n)

starts_with_digit : (c : ℕ) (s : Text) (n : ℕ) → digits_value 0 (c ∷ s) ≡ some n → is_digit c ≡ true
unfolding digits_value
starts_with_digit c s n h = ground arith

parse_i64-digits :
    (s : Text) (n : ℕ)
    → is_empty s ≡ false
    → digits_value 0 s ≡ some n
    → n ≤ i64_max
    → parse_i64 s ≡ some (pos n)
unfolding parse_i64 parse_signed bounded_value
parse_i64-digits [] n f h b = unfold is_empty in ground arith
parse_i64-digits (c ∷ s) n f h b = rw (not_minus, not_plus, h, fits) refl
  where
    digit : is_digit c ≡ true
    digit = starts_with_digit c s n h

    not_minus : (c == b'-') ≡ false
    not_minus = unfold is_digit in ground arith

    not_plus : (c == b'+') ≡ false
    not_plus = unfold is_digit in ground arith

    fits : leb n (2 ^ 63 - 1) ≡ true
    fits = ground arith

pub parse_i64-show_nat : (n : ℕ) → n ≤ i64_max → parse_i64 (show_nat n) ≡ some (pos n)
parse_i64-show_nat n b =
    parse_i64-digits (show_nat n) n (show_nat-filled n) (digits_value-show_nat n) b
