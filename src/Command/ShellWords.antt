-- ===== src/Command/ShellWords.antt =====
-- How a shell reads the words of a command that has no expansions, and that it reads back what
-- `shell_join` of src/runtime/launch.rs wrote.
use slotd.Prelude.{
  ℕ, ◌≡◌, refl, ap, ◌∙◌, Bool, true, false, ◌||◌, List, [], ◌∷◌, ◌++◌, append_assoc, append-nil,
  map, Option, none, some, Text, ◌==◌, if◌then◌else◌, arith, Bool-cases, inl, inr, all,
}
use slotd.Strings.{is_empty, join}
use slotd.Command.Quoting.{plain_char, escape_quotes, shell_quote, shell_join}

-- Between words, in a word, and in a part of it between single or double quotes, with the part of
-- the word read so far and the words before it.
data Reader : Type 0 where
  blank : (words : List Text) → Reader
  word single double : (part : Text) → (words : List Text) → Reader

-- What means something else than itself outside quotes.
is_special : ℕ → Bool
is_special c =
    c == 9
    || c == 10
    || c == b'!'
    || c == b'#'
    || c == b'$'
    || c == b'%'
    || c == b'&'
    || c == b'('
    || c == b')'
    || c == b'*'
    || c == b';'
    || c == b'<'
    || c == b'='
    || c == b'>'
    || c == b'?'
    || c == b'['
    || c == b']'
    || c == b'^'
    || c == 92
    || c == 96
    || c == b'{'
    || c == b'|'
    || c == b'}'
    || c == b'~'

in_word : Text → List Text → ℕ → Option Reader
unfolding is_special
in_word part words c =
    if c == 39
    then some (single part words)
    else if c == 34
    then some (double part words)
    else if is_special c
    then none
    else some (word (part ++ c ∷ []) words)

read_char : Reader → ℕ → Option Reader
unfolding in_word
read_char (blank words) c = if c == 32 then some (blank words) else in_word [] words c
read_char (word part words) c =
    if c == 32 then some (blank (words ++ part ∷ [])) else in_word part words c
read_char (single part words) c =
    if c == 39 then some (word part words) else some (single (part ++ c ∷ []) words)
read_char (double part words) c =
    if c == 34
    then some (word part words)
    else if c == b'$' || c == 96 || c == 92
    then none
    else some (double (part ++ c ∷ []) words)

read_text : Option Reader → Text → Option Reader
unfolding read_char
read_text none s = none
read_text (some r) [] = some r
read_text (some r) (c ∷ s) = read_text (read_char r c) s

words_of : Option Reader → Option (List Text)
words_of none = none
words_of (some (blank words)) = some words
words_of (some (word part words)) = some (words ++ part ∷ [])
words_of (some (single part words)) = none
words_of (some (double part words)) = none

pub shell_words : Text → Option (List Text)
unfolding words_of read_text
shell_words s = words_of (read_text (some (blank [])) s)

read_text-append :
    (r : Option Reader) (s t : Text) → read_text r (s ++ t) ≡ read_text (read_text r s) t
unfolding read_text
read_text-append none s t = refl
read_text-append (some r) [] t = refl
read_text-append (some r) (c ∷ s) t = read_text-append (read_char r c) s t

plain_char-ordinary :
    (c : ℕ)
    → plain_char c ≡ true
    → ((c == 32) ≡ false) × ((c == 39) ≡ false) × ((c == 34) ≡ false) × (is_special c ≡ false)
unfolding plain_char is_special
plain_char-ordinary c h = (ground arith, ground arith, ground arith, ground arith)

plain_char-read :
    (c : ℕ) (part : Text) (words : List Text)
    → plain_char c ≡ true
    → read_char (word part words) c ≡ some (word (part ++ c ∷ []) words)
unfolding read_char in_word
plain_char-read c part words h =
    let (space, quote, quotes, ordinary) = plain_char-ordinary c h in cc

read_text-plain :
    (s part : Text) (words : List Text)
    → all plain_char s ≡ true
    → read_text (some (word part words)) s ≡ some (word (part ++ s) words)
unfolding read_text all
read_text-plain [] part words h = rw (append-nil part) refl
read_text-plain (c ∷ s) part words h =
    ap (λ (r : Option Reader). read_text r s) (plain_char-read c part words (ground arith))
    ∙ read_text-plain s (part ++ c ∷ []) words (ground arith)
    ∙ ap (λ (t : Text). some (word t words)) (append_assoc part (c ∷ []) s)

single-other :
    (c : ℕ) (part : Text) (words : List Text)
    → (c == 39) ≡ false
    → read_char (single part words) c ≡ some (single (part ++ c ∷ []) words)
unfolding read_char
single-other c part words b = rw b refl

read_text-escape_quotes :
    (s part : Text) (words : List Text)
    → read_text (some (single part words)) (escape_quotes s ++ 39 ∷ [])
      ≡ some (word (part ++ s) words)
unfolding escape_quotes read_text read_char in_word
read_text-escape_quotes [] part words = rw (append-nil part) refl
read_text-escape_quotes (c ∷ s) part words = elim (Bool-cases (c == 39)) [
  | inl b ↦
      rw (b, read_text-escape_quotes s (part ++ 39 ∷ []) words, append_assoc part (39 ∷ []) s)
        (ap (λ (d : ℕ). some (word (part ++ d ∷ s) words)) (ground arith))
  | inr b ↦ rw b (
      ap (λ (r : Option Reader). read_text r (escape_quotes s ++ 39 ∷ []))
        (single-other c part words b)
      ∙ read_text-escape_quotes s (part ++ c ∷ []) words
      ∙ ap (λ (t : Text). some (word t words)) (append_assoc part (c ∷ []) s))
]

first_char :
    (c : ℕ) (words : List Text)
    → plain_char c ≡ true
    → read_char (blank words) c ≡ some (word (c ∷ []) words)
unfolding read_char in_word
first_char c words h = let (space, quote, quotes, ordinary) = plain_char-ordinary c h in cc

read_text-plain_start :
    (c : ℕ) (s : Text) (words : List Text)
    → all plain_char (c ∷ s) ≡ true
    → read_text (some (blank words)) (c ∷ s) ≡ some (word (c ∷ s) words)
unfolding read_text all
read_text-plain_start c s words h =
    ap (λ (r : Option Reader). read_text r s) (first_char c words (ground arith))
    ∙ read_text-plain s (c ∷ []) words (ground arith)

-- One argument, behind a space or at the start, is read as one more word.
read_text-shell_quote :
    (value : Text) (words : List Text)
    → read_text (some (blank words)) (shell_quote value) ≡ some (word value words)
unfolding shell_quote
read_text-shell_quote [] words = unfold is_empty read_text read_char in_word in refl
read_text-shell_quote (c ∷ s) words = elim (Bool-cases (all plain_char (c ∷ s))) [
  | inl b ↦ rw (b, is_empty) (read_text-plain_start c s words b)
  | inr b ↦
      rw (b, is_empty)
        (unfold read_text read_char in_word in read_text-escape_quotes (c ∷ s) [] words)
]

space_read :
    (part : Text) (words : List Text) (s : Text)
    → read_text (some (word part words)) (32 ∷ s) ≡ read_text (some (blank (words ++ part ∷ []))) s
unfolding read_text read_char
space_read part words s = refl

read_text-joined :
    (value : Text) (values : List Text) (words : List Text)
    → words_of (read_text (some (blank words)) (join (32 ∷ []) (map shell_quote (value ∷ values))))
      ≡ some (words ++ value ∷ values)
unfolding join words_of
read_text-joined value [] words = ap words_of (read_text-shell_quote value words)
read_text-joined value (next ∷ values) words =
    ap words_of (
      ap (read_text (some (blank words))) (
        append_assoc (shell_quote value) (32 ∷ [])
          (join (32 ∷ []) (map shell_quote (next ∷ values))))
      ∙ read_text-append (some (blank words)) (shell_quote value)
          (32 ∷ join (32 ∷ []) (map shell_quote (next ∷ values)))
      ∙ ap
          (λ (r : Option Reader).
            read_text r (32 ∷ join (32 ∷ []) (map shell_quote (next ∷ values))))
          (read_text-shell_quote value words)
      ∙ space_read value words (join (32 ∷ []) (map shell_quote (next ∷ values))))
    ∙ read_text-joined next values (words ++ value ∷ [])
    ∙ ap some (append_assoc words (value ∷ []) (next ∷ values))

-- A shell that reads the text `shell_join` makes of a list of arguments, whatever characters they hold,
-- gets exactly these arguments.
pub shell_words-shell_join : (args : List Text) → shell_words (shell_join args) ≡ some args
unfolding shell_words shell_join
shell_words-shell_join [] = unfold join words_of read_text in refl
shell_words-shell_join (value ∷ values) = read_text-joined value values []
