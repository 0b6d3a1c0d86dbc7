-- ===== src/Prelude/Errors.antt =====
-- `SlotdError` and `Result` of src/app/error.rs, and texts as lists of code points.
use Prim.Native.Nat.{ℕ}
use Prim.Native.Char.{code}
use Prim.Native.String.{String}
use mathlib.Core.Bool.{Bool, true, false}
use mathlib.Core.Option.{Option, none, some}
use mathlib.Core.List.{List, [], ◌∷◌}
use mathlib.Core.Path.{◌≡◌, refl}
use native.Mathlib.Omega.{arith}
use slotd.Prelude.Int.{ℤ}

-- A `String` as the list of its code points.
abbrev pub Text : Type 0
Text = List ℕ

-- A literal. Shut, so that a message stays one term in a goal.
unfoldable pub lit : String → Text
lit String.[] = []
lit (String.◌∷◌ c s) = code c ∷ lit s

pub data SlotdError : Type 0 where
  exit : ℤ → SlotdError
  message : Text → SlotdError
  io sqlite serde nix : Text → SlotdError

pub data Result {ℓ} (A : Type ℓ) : Type ℓ where
  ok : A → Result A
  err : SlotdError → Result A
  -- The call does not come back: its loop never ends.
  diverges : Result A

-- What the outside says to a call: a value, or why not. It always says something.
pub data Answer {ℓ} (A : Type ℓ) : Type ℓ where
  gives : A → Answer A
  refuses : SlotdError → Answer A

abbrev pub to_result {ℓ} : {A : Type ℓ} → Answer A → Result A
to_result (gives a) = ok a
to_result (refuses e) = err e

-- The call comes back.
abbrev pub Halts {ℓ} : {A : Type ℓ} → Result A → Type 0
Halts (ok a) = Unit
Halts (err e) = Unit
Halts diverges = ⊥

-- `Option::ok_or_else`.
abbrev pub ok_or {ℓ} : {A : Type ℓ} → Option A → SlotdError → Result A
ok_or none e = err e
ok_or (some a) e = ok a

-- `if !test { return Err(…) }`.
abbrev pub guard : (test : Bool) → (otherwise : SlotdError) → Result (Unit {0})
guard false otherwise = err otherwise
guard true otherwise = ok tt

-- The operator `?`: the rest of the function runs on the value.
infixl 5 ◌>>=◌
abbrev pub ◌>>=◌ {ℓ κ} : {A : Type ℓ} {B : Type κ} → Result A → (rest : A → Result B) → Result B
diverges >>= rest = diverges
err e >>= rest = err e
ok value >>= rest = rest value

infixl 5 ◌>>◌
abbrev pub ◌>>◌ {ℓ} : {B : Type ℓ} → (first : Result (Unit {0})) → (rest : Result B) → Result B
first >> rest = first >>= λ done. rest

-- `iter().map(f).collect::<Result<Vec<_>>>()`.
unfoldable pub collect {ℓ κ} : {A : Type ℓ} {B : Type κ} → (A → Result B) → List A → Result (List B)
collect f [] = ok []
collect f (x ∷ xs) = do y ← f x; ys ← collect f xs; ok (y ∷ ys)

pub bind-Halts {ℓ κ} :
    {A : Type ℓ} {B : Type κ} (m : Result A) (f : A → Result B)
    → Halts m
    → ((a : A) → Halts (f a))
    → Halts (m >>= f)
bind-Halts (ok a) f h k = k a
bind-Halts (err e) f h k = tt
bind-Halts diverges f h k = h

pub ok_or-Halts {ℓ} : {A : Type ℓ} (o : Option A) (e : SlotdError) → Halts (ok_or o e)
ok_or-Halts none e = tt
ok_or-Halts (some a) e = tt

pub collect-Halts {ℓ κ} :
    {A : Type ℓ} {B : Type κ} (f : A → Result B) (xs : List A)
    → ((a : A) → Halts (f a))
    → Halts (collect f xs)
unfolding collect
collect-Halts f [] h = tt
collect-Halts f (x ∷ xs) h =
    bind-Halts (f x) _ (h x) (λ y. bind-Halts (collect f xs) _ (collect-Halts f xs h) (λ ys. tt))

-- A chain that returns a value returned one at each step.
pub bind-ok {ℓ κ} :
    {A : Type ℓ} {B : Type κ} (m : Result A) (f : A → Result B) (b : B)
    → (m >>= f) ≡ ok b
    → (a : A) × (m ≡ ok a) × (f a ≡ ok b)
bind-ok (ok a) f b h = (a, refl, h)
bind-ok (err e) f b h = ground arith
bind-ok diverges f b h = ground arith

pub ok-injective {ℓ} : {A : Type ℓ} (a b : A) → ok a ≡ ok b → a ≡ b
ok-injective a b h = ground arith
