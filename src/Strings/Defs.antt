-- ===== src/Strings/Defs.antt =====
-- Cutting, comparing and changing the case of texts, as Rust's `str` does.
use slotd.Prelude.{
  ℕ, ◌+◌, ◌-◌, Bool, true, false, ◌&&◌, ◌||◌, List, [], ◌∷◌, ◌++◌, map, reverse, Option, none, some,
  Text, leb, ltb, ◌==◌, zero, suc, if◌then◌else◌,
}

unfoldable pub text_eq : Text → Text → Bool
text_eq [] [] = true
text_eq [] (d ∷ t) = false
text_eq (c ∷ s) [] = false
text_eq (c ∷ s) (d ∷ t) = c == d && text_eq s t

unfoldable pub is_empty : Text → Bool
is_empty [] = true
is_empty (c ∷ s) = false

-- `char::is_whitespace`.
unfoldable pub is_space : ℕ → Bool
is_space c =
    (leb 9 c && leb c 13)
    || c == 32
    || c == 0x85
    || c == 0xa0
    || c == 0x1680
    || (leb 0x2000 c && leb c 0x200a)
    || c == 0x2028
    || c == 0x2029
    || c == 0x202f
    || c == 0x205f
    || c == 0x3000

unfoldable pub trim_start : Text → Text
unfolding is_space
trim_start [] = []
trim_start (c ∷ s) = if is_space c then trim_start s else c ∷ s

unfoldable pub trim : Text → Text
unfolding trim_start
trim s = reverse (trim_start (reverse (trim_start s)))

-- `to_ascii_uppercase` and `to_ascii_lowercase` of one character, and of a text.
unfoldable pub upper : ℕ → ℕ
upper c = if leb b'a' c && leb c b'z' then c - 32 else c

unfoldable pub lower : ℕ → ℕ
lower c = if leb b'A' c && leb c b'Z' then c + 32 else c

unfoldable pub to_ascii_uppercase : Text → Text
unfolding upper
to_ascii_uppercase = map upper

unfoldable pub to_ascii_lowercase : Text → Text
unfolding lower
to_ascii_lowercase = map lower

unfoldable pub eq_ignore_ascii_case : Text → Text → Bool
unfolding to_ascii_lowercase text_eq
eq_ignore_ascii_case s t = text_eq (to_ascii_lowercase s) (to_ascii_lowercase t)

-- `split(sep)`: the pieces between the separators, at least one.
unfoldable pub split_from : ℕ → Text → Text → List Text
split_from sep cur [] = cur ∷ []
split_from sep cur (c ∷ s) = elim (c == sep) [
  | true ↦ cur ∷ split_from sep [] s
  | false ↦ split_from sep (cur ++ c ∷ []) s
]

unfoldable pub split : ℕ → Text → List Text
unfolding split_from
split sep s = split_from sep [] s

-- `split_once(sep)`: before and after the first separator.
unfoldable pub split_once : ℕ → Text → Option (Text × Text)
split_once sep [] = none
split_once sep (c ∷ s) =
    let later : Option (Text × Text) = elim (split_once sep s) [
      | none ↦ none
      | some (a, b) ↦ some (c ∷ a, b)
    ] in
    if c == sep then some ([], s) else later

unfoldable pub strip_prefix : Text → Text → Option Text
strip_prefix [] s = some s
strip_prefix (p ∷ ps) [] = none
strip_prefix (p ∷ ps) (c ∷ s) = if p == c then strip_prefix ps s else none

unfoldable pub starts_with : Text → Text → Bool
unfolding strip_prefix
starts_with p s = elim (strip_prefix p s) [ none ↦ false | some r ↦ true ]

-- `trim_start_matches(p)` for a text `p`: each round takes one copy away. The text bounds the rounds.
trim_matches : Text → Text → Text → Text
unfolding strip_prefix
trim_matches [] p s = s
trim_matches (_ ∷ bound) p s = elim (strip_prefix p s) [
  | none ↦ s
  | some r ↦ trim_matches bound p r
]

unfoldable pub trim_start_matches : Text → Text → Text
unfolding trim_matches
trim_start_matches p s = trim_matches s p s

-- `split_whitespace`: the runs of other characters.
words_from : Text → Text → List Text
unfolding is_space
words_from [] [] = []
words_from (d ∷ cur) [] = (d ∷ cur) ∷ []
words_from [] (c ∷ s) = words_from (if is_space c then [] else c ∷ []) s
words_from (d ∷ cur) (c ∷ s) = elim (is_space c) [
  | true ↦ (d ∷ cur) ∷ words_from [] s
  | false ↦ words_from (d ∷ cur ++ c ∷ []) s
]

unfoldable pub split_whitespace : Text → List Text
unfolding words_from
split_whitespace s = words_from [] s

-- `lines`: cut at `\n`, without a `\r` before it and without a last empty line.
chop_return : Text → Text
chop_return [] = []
chop_return (c ∷ []) = if c == 13 then [] else c ∷ []
chop_return (c ∷ d ∷ s) = c ∷ chop_return (d ∷ s)

lines_of : List Text → List Text
unfolding chop_return
lines_of [] = []
lines_of ([] ∷ []) = []
lines_of ((c ∷ s) ∷ []) = (c ∷ s) ∷ []
lines_of (l ∷ m ∷ ls) = chop_return l ∷ lines_of (m ∷ ls)

unfoldable pub lines : Text → List Text
unfolding lines_of split
lines s = lines_of (split 10 s)

-- `join(sep)`.
unfoldable pub join : Text → List Text → Text
join sep [] = []
join sep (p ∷ []) = p
join sep (p ∷ q ∷ ps) = p ++ sep ++ join sep (q ∷ ps)

-- The order of texts: of the first code points that differ, and a text before what goes on after it.
-- UTF-8 keeps the order of code points.
unfoldable pub text_lt : Text → Text → Bool
text_lt s [] = false
text_lt [] (d ∷ t) = true
text_lt (c ∷ s) (d ∷ t) = let rest = text_lt s t in if c == d then rest else ltb c d

-- `contains(c)` for a character.
unfoldable pub contains_char : ℕ → Text → Bool
contains_char c [] = false
contains_char c (d ∷ s) = c == d || contains_char c s

-- `split(p)` for a test of characters.
split_where_from : (ℕ → Bool) → Text → Text → List Text
split_where_from p cur [] = cur ∷ []
split_where_from p cur (c ∷ s) = elim (p c) [
  | true ↦ cur ∷ split_where_from p [] s
  | false ↦ split_where_from p (cur ++ c ∷ []) s
]

unfoldable pub split_where : (ℕ → Bool) → Text → List Text
unfolding split_where_from
split_where p s = split_where_from p [] s

-- A run of one character.
unfoldable pub repeat_char : ℕ → ℕ → Text
repeat_char c zero = []
repeat_char c (suc n) = c ∷ repeat_char c n

-- The literal of a `match` on a text that is this text: the first that is.
unfoldable pub text_case {ℓ} : {A : Type ℓ} → List (Text × A) → Text → Option A
unfolding text_eq
text_case [] s = none
text_case ((t, a) ∷ cases) s = let rest = text_case cases s in if text_eq s t then some a else rest

-- The same for a character.
unfoldable pub char_case {ℓ} : {A : Type ℓ} → List (ℕ × A) → ℕ → Option A
char_case [] c = none
char_case ((d, a) ∷ cases) c = let rest = char_case cases c in if c == d then some a else rest
