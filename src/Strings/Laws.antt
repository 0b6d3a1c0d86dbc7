-- ===== src/Strings/Laws.antt =====
-- Lemmas on texts and decimal numbers.
use slotd.Prelude.{
  ℕ, zero, suc, ◌+◌, ◌/◌, ◌%◌, ◌≤◌, ◌≡◌, refl, ap, sym, ◌∙◌, true, false, List, ◌++◌, append_assoc,
  append-nil, All, [], ◌∷◌, Text, ◌==◌, arith, inl, inr, Bool-cases,
}
use slotd.Strings.Defs.{text_eq, contains_char, split_from, split, join}
use slotd.Strings.Numbers.{digits_value, emit_digits, is_digit}

pub text_eq_refl : (s : Text) → text_eq s s ≡ true
unfolding text_eq
text_eq_refl [] = refl
text_eq_refl (c ∷ s) = ground (arith, text_eq_refl s)

pub text_eq_sound : (s t : Text) → text_eq s t ≡ true → s ≡ t
unfolding text_eq
text_eq_sound [] [] h = refl
text_eq_sound [] (d ∷ t) h = ground arith
text_eq_sound (c ∷ s) [] h = ground arith
text_eq_sound (c ∷ s) (d ∷ t) h = ground (arith, text_eq_sound s t)

pub digits_value-emit :
    (f n : ℕ) (out : Text) → n ≤ f → digits_value 0 (emit_digits f n out) ≡ digits_value n out
unfolding emit_digits
digits_value-emit zero n out h = ground arith
digits_value-emit (suc f) n out h = elim (Bool-cases (n == 0)) [
  | inl e ↦ ground arith
  | inr e ↦ rw e (ground (arith, digits_value-emit f (n / 10) ((b'0' + n % 10) ∷ out), step))
]
  where
    step : digits_value (n / 10) ((b'0' + n % 10) ∷ out) ≡ digits_value n out
    step = unfold digits_value is_digit in ground arith

eq_refl : (n : ℕ) → (n == n) ≡ true
eq_refl n = ground arith

lacks_tail :
    (sep c : ℕ) (t : Text)
    → contains_char sep (c ∷ t) ≡ false
    → ((c == sep) ≡ false) × (contains_char sep t ≡ false)
unfolding contains_char
lacks_tail sep c t h = (ground arith, ground arith)

split_from-other :
    (sep : ℕ) (cur : Text) (c : ℕ) (s : Text)
    → (c == sep) ≡ false
    → split_from sep cur (c ∷ s) ≡ split_from sep (cur ++ c ∷ []) s
unfolding split_from
split_from-other sep cur c s h = cc

split_from-sep : (sep : ℕ) (cur s : Text) → split_from sep cur (sep ∷ s) ≡ cur ∷ split_from sep [] s
unfolding split_from
split_from-sep sep cur s = let h = eq_refl sep in cc

split_from-lacking :
    (sep : ℕ) (cur t : Text) → contains_char sep t ≡ false → split_from sep cur t ≡ (cur ++ t) ∷ []
unfolding split_from contains_char
split_from-lacking sep cur [] h = rw (append-nil cur) refl
split_from-lacking sep cur (c ∷ t) h =
    let (other, lacks) = lacks_tail sep c t h in
    split_from-other sep cur c t other
    ∙ split_from-lacking sep (cur ++ c ∷ []) t lacks
    ∙ ap (λ (l : Text). l ∷ []) (append_assoc cur (c ∷ []) t)

split_from-piece :
    (sep : ℕ) (cur t rest : Text)
    → contains_char sep t ≡ false
    → split_from sep cur (t ++ sep ∷ rest) ≡ (cur ++ t) ∷ split_from sep [] rest
unfolding split_from contains_char
split_from-piece sep cur [] rest h =
    split_from-sep sep cur rest
    ∙ ap (λ (l : Text). l ∷ split_from sep [] rest) (sym (append-nil cur))
split_from-piece sep cur (c ∷ t) rest h =
    let (other, lacks) = lacks_tail sep c t h in
    split_from-other sep cur c (t ++ sep ∷ rest) other
    ∙ split_from-piece sep (cur ++ c ∷ []) t rest lacks
    ∙ ap (λ (l : Text). l ∷ split_from sep [] rest) (append_assoc cur (c ∷ []) t)

-- Texts that lack the separator, joined by it, are the pieces again.
pub split-join :
    (sep : ℕ) (t : Text) (ts : List Text)
    → All (λ s. contains_char sep s ≡ false) (t ∷ ts)
    → split sep (join (sep ∷ []) (t ∷ ts)) ≡ t ∷ ts
unfolding split join
split-join sep t [] h = split_from-lacking sep [] t h.0
split-join sep t (u ∷ ts) h =
    rw
      (
        append_assoc t (sep ∷ []) (join (sep ∷ []) (u ∷ ts)),
        split_from-piece sep [] t (join (sep ∷ []) (u ∷ ts)) h.0,
      )
      (ap (t ∷◌) (split-join sep u ts h.1))
