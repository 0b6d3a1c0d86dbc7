-- ===== src/Util/EnvSort.antt =====
-- The order of the names in the environment of src/util/env.rs.
use slotd.Prelude.{
  ◌≡◌, refl, Bool, true, false, not, [], ◌∷◌, Text, arith, inl, inr, Bool-cases, All, All-imp,
  sort_by,
}
use slotd.Prelude.Sorting.{Ordered, sort_by-Ordered}
use slotd.Strings.{text_eq, text_lt}
use slotd.Strings.Order.{text_lt_irrefl, text_lt_total, text_lt_split, text_lt_trans}
use slotd.Util.Env.{Env, dedup_behind, dedup_names}

abbrev pub Pair : Type 0
Pair = Text × Text

abbrev pub not_before : Pair → Pair → Bool
not_before a b = not (text_lt b.0 a.0)

-- No name stands behind a greater one; each name is smaller than those behind it.
abbrev pub IsSorted : Env → Type 0
IsSorted [] = Unit
IsSorted (x ∷ xs) = All (λ y. text_lt y.0 x.0 ≡ false) xs × IsSorted xs

abbrev pub IsAscending : Env → Type 0
IsAscending [] = Unit
IsAscending (x ∷ xs) = All (λ y. text_lt x.0 y.0 ≡ true) xs × IsAscending xs

weak_trans : (x y z : Text) → text_lt y x ≡ false → text_lt z y ≡ false → text_lt z x ≡ false
weak_trans x y z h k = elim (Bool-cases (text_lt z x)) [
  | inl b ↦ elim (text_lt_split z y x b) [ inl l ↦ ground arith | inr r ↦ ground arith ]
  | inr b ↦ b
]

weak_strict : (x y z : Text) → text_lt x y ≡ true → text_lt z y ≡ false → text_lt x z ≡ true
weak_strict x y z h k = elim (text_lt_split x z y h) [ inl l ↦ l | inr r ↦ ground arith ]

pub lt_asym : (x y : Text) → text_lt x y ≡ true → text_lt y x ≡ false
lt_asym x y h = elim (Bool-cases (text_lt y x)) [
  | inl b ↦ ground (arith, text_lt_trans x y x h b, text_lt_irrefl x)
  | inr b ↦ b
]

not_before-total : (x y : Pair) → not_before x y ≡ false → not_before y x ≡ true
not_before-total x y h = rw (lt_asym y.0 x.0 (ground arith)) refl

not_before_trans :
    (x y z : Pair) → not_before x y ≡ true → not_before y z ≡ true → not_before x z ≡ true
not_before_trans x y z h k = rw (weak_trans x.0 y.0 z.0 (ground arith) (ground arith)) refl

Ordered-IsSorted : (xs : Env) → Ordered not_before xs → IsSorted xs
Ordered-IsSorted [] h = tt
Ordered-IsSorted (x ∷ xs) h = (
  All-imp (λ y. not_before x y ≡ true) (λ y. text_lt y.0 x.0 ≡ false) xs (λ y l. ground arith) h.0,
  Ordered-IsSorted xs h.1,
)

pub sort_by-IsSorted : (xs : Env) → IsSorted (sort_by not_before xs)
sort_by-IsSorted xs =
    Ordered-IsSorted (sort_by not_before xs)
      (sort_by-Ordered not_before not_before-total not_before_trans xs)

dedup_behind-above :
    (last : Text) (bound : Text) (xs : Env)
    → All (λ y. text_lt bound y.0 ≡ true) xs
    → All (λ y. text_lt bound y.0 ≡ true) (dedup_behind last xs)
unfolding dedup_behind
dedup_behind-above last bound [] h = tt
dedup_behind-above last bound (y ∷ ys) h = elim (Bool-cases (text_eq y.0 last)) [
  | inl b ↦ rw b (dedup_behind-above last bound ys h.1)
  | inr b ↦ rw b (h.0, dedup_behind-above y.0 bound ys h.1)
]

-- Behind a name, dropping its neighbours of the same name leaves greater names.
dedup_behind-IsAscending :
    (last : Text) (xs : Env)
    → All (λ y. text_lt y.0 last ≡ false) xs
    → IsSorted xs
    → All (λ y. text_lt last y.0 ≡ true) (dedup_behind last xs) × IsAscending (dedup_behind last xs)
unfolding dedup_behind
dedup_behind-IsAscending last [] h s = (tt, tt)
dedup_behind-IsAscending last (y ∷ ys) h s = elim (Bool-cases (text_eq y.0 last)) [
  | inl b ↦ rw b (dedup_behind-IsAscending last ys h.1 s.1)
  | inr b ↦ rw b (
      let above = text_lt_total y.0 last h.0 b in
      let rest = dedup_behind-IsAscending y.0 ys s.0 s.1 in
      (
        (
          above,
          dedup_behind-above y.0 last ys (
              All-imp (λ z. text_lt z.0 y.0 ≡ false) (λ z. text_lt last z.0 ≡ true) ys
                (λ z l. weak_strict last y.0 z.0 above l) s.0),
        ),
        rest,
      ))
]

pub dedup_names-IsAscending : (xs : Env) → IsSorted xs → IsAscending (dedup_names xs)
unfolding dedup_names
dedup_names-IsAscending [] h = tt
dedup_names-IsAscending (x ∷ xs) h = dedup_behind-IsAscending x.0 xs h.0 h.1
