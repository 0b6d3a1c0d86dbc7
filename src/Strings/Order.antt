-- ===== src/Strings/Order.antt =====
-- The order of texts is a linear order.
use slotd.Prelude.{◌≡◌, refl, true, false, [], ◌∷◌, Text, arith, inl, inr, ◌⊎◌}
use slotd.Strings.Defs.{text_eq, text_lt}

pub text_lt_irrefl : (s : Text) → text_lt s s ≡ false
unfolding text_lt
text_lt_irrefl [] = refl
text_lt_irrefl (c ∷ s) = ground (arith, text_lt_irrefl s)

pub text_lt_total : (s t : Text) → text_lt s t ≡ false → text_eq s t ≡ false → text_lt t s ≡ true
unfolding text_lt text_eq
text_lt_total [] [] h k = ground arith
text_lt_total [] (d ∷ t) h k = ground arith
text_lt_total (c ∷ s) [] h k = refl
text_lt_total (c ∷ s) (d ∷ t) h k = ground (arith, text_lt_total s t)

-- Between two texts in order, a third is after the one or before the other.
pub text_lt_split :
    (s t u : Text) → text_lt s u ≡ true → (text_lt s t ≡ true) ⊎ (text_lt t u ≡ true)
unfolding text_lt
text_lt_split s t [] h = ground arith
text_lt_split [] [] (e ∷ u) h = inr refl
text_lt_split [] (d ∷ t) (e ∷ u) h = inl refl
text_lt_split (c ∷ s) [] (e ∷ u) h = inr refl
text_lt_split (c ∷ s) (d ∷ t) (e ∷ u) h = ground (arith, text_lt_split s t u)

pub text_lt_trans : (s t u : Text) → text_lt s t ≡ true → text_lt t u ≡ true → text_lt s u ≡ true
unfolding text_lt
text_lt_trans s t [] h k = ground arith
text_lt_trans s [] (e ∷ u) h k = ground arith
text_lt_trans [] (d ∷ t) (e ∷ u) h k = refl
text_lt_trans (c ∷ s) (d ∷ t) (e ∷ u) h k = ground (arith, text_lt_trans s t u)
