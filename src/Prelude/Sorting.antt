-- ===== src/Prelude/Sorting.antt =====
-- A stable sort by a total and transitive test leaves no element in front of one that may not
-- stand behind it.
use mathlib.Core.Path.{◌≡◌}
use mathlib.Core.Bool.{Bool, true, false}
use mathlib.Core.List.{List, [], ◌∷◌}
use mathlib.Core.Logic.{inl, inr}
use slotd.Prelude.Tests.{Bool-cases}
use slotd.Prelude.Lists.{All, All-imp, insert_by, sort_by, insert_by-All}

module _ {ℓ} {A : Type ℓ} (before : A → A → Bool) where
  abbrev pub Ordered : List A → Type 0
  Ordered [] = Unit
  Ordered (x ∷ xs) = All (λ y. before x y ≡ true) xs × Ordered xs

  module _ (total : (x y : A) → before x y ≡ false → before y x ≡ true)
      (trans : (x y z : A) → before x y ≡ true → before y z ≡ true → before x z ≡ true) where
    insert_by-Ordered : (x : A) (xs : List A) → Ordered xs → Ordered (insert_by before x xs)
    unfolding insert_by
    insert_by-Ordered x [] h = (tt, tt)
    insert_by-Ordered x (y ∷ ys) h = elim (Bool-cases (before x y)) [
      | inl b ↦ rw b (
        (
          b,
          All-imp (λ z. before y z ≡ true) (λ z. before x z ≡ true) ys (λ z l. trans x y z b l) h.0,
        ),
        h,
      )
      | inr b ↦ rw b (
        insert_by-All (λ z. before y z ≡ true) before x ys (total x y b) h.0,
        insert_by-Ordered x ys h.1,
      )
    ]

    pub sort_by-Ordered : (xs : List A) → Ordered (sort_by before xs)
    unfolding sort_by
    sort_by-Ordered [] = tt
    sort_by-Ordered (x ∷ xs) = insert_by-Ordered x (sort_by before xs) (sort_by-Ordered xs)
