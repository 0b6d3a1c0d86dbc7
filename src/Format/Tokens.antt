-- ===== src/Format/Tokens.antt =====
-- src/format/mod.rs, and what the three parsers of field lists share.
use slotd.Prelude.{
  ℕ, Bool, ◌&&◌, ◌||◌, List, [], ◌∷◌, ◌++◌, map, keep, Option, none, some, Text, lit, leb, ◌==◌,
  not, if◌then◌else◌,
}
use slotd.Strings.{trim, is_space, is_empty, split, split_where, starts_with, to_ascii_lowercase}
use slotd.Job.{Parsed, parsed, unparsed}

-- `?` and `collect` for a `Result` with a text.
abbrev pub then_parse {ℓ κ} : {A : Type ℓ} {B : Type κ} → Parsed A → (A → Parsed B) → Parsed B
then_parse (parsed a) f = f a
then_parse (unparsed e) f = unparsed e

unfoldable pub collect_parsed {ℓ κ} :
    {A : Type ℓ} {B : Type κ} → (A → Parsed B) → List A → Parsed (List B)
collect_parsed f [] = parsed []
collect_parsed f (x ∷ xs) =
    then_parse (f x) (λ y. then_parse (collect_parsed f xs) (λ ys. parsed (y ∷ ys)))

is_ascii_alphabetic : ℕ → Bool
is_ascii_alphabetic c = (leb b'A' c && leb c b'Z') || (leb b'a' c && leb c b'z')

-- The last letter.
last_letter : Text → Option ℕ
unfolding is_ascii_alphabetic
last_letter [] = none
last_letter (c ∷ s) = elim (last_letter s) [
  | some d ↦ some d
  | none ↦ if is_ascii_alphabetic c then some c else none
]

token_code : Text → Parsed ℕ
unfolding last_letter starts_with lit
token_code token =
    if not (starts_with (lit "%") token)
    then unparsed (lit "unsupported format token: " ++ token)
    else elim (last_letter token) [
      | none ↦ unparsed (lit "unsupported format token: " ++ token)
      | some code ↦ parsed code
    ]

some_codes : List ℕ → Parsed (List ℕ)
unfolding lit
some_codes [] = unparsed (lit "empty format specification")
some_codes (c ∷ cs) = parsed (c ∷ cs)

unfoldable pub parse_percent_tokens : Text → Parsed (List ℕ)
unfolding split_where trim is_empty keep collect_parsed token_code some_codes is_space
parse_percent_tokens spec =
    let tokens =
      keep (λ t. not (is_empty t)) (map trim (split_where (λ c. c == b',' || is_space c) spec)) in
    then_parse (collect_parsed token_code tokens) some_codes

module _ {ℓ} {F : Type ℓ} where
  -- A name between commas, in any case.
  unfoldable pub named_field : (name_of : Text → Option F) → (problem : Text) → Text → Parsed F
  unfolding trim to_ascii_lowercase
  named_field name_of problem field =
      let other = to_ascii_lowercase (trim field) in
      elim (name_of other) [ some f ↦ parsed f | none ↦ unparsed (problem ++ other) ]

  unfoldable pub parse_names :
      (name_of : Text → Option F) → (problem : Text) → Text → Parsed (List F)
  unfolding named_field collect_parsed split
  parse_names name_of problem spec = collect_parsed (named_field name_of problem) (split b',' spec)

  coded_field : (code_of : ℕ → Option F) → (problem : Text) → ℕ → Parsed F
  coded_field code_of problem code = elim (code_of code) [
    | some f ↦ parsed f
    | none ↦ unparsed (problem ++ code ∷ [])
  ]

  unfoldable pub parse_codes : (code_of : ℕ → Option F) → (problem : Text) → Text → Parsed (List F)
  unfolding parse_percent_tokens collect_parsed coded_field
  parse_codes code_of problem spec =
      then_parse (parse_percent_tokens spec) (collect_parsed (coded_field code_of problem))
