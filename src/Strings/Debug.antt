-- ===== src/Strings/Debug.antt =====
-- `{:?}` of a `str`: the text in double quotes with escapes. Characters from U+0080 on stay as they are;
-- the standard library writes those among them that are not printable as `\u{…}` too.
use slotd.Prelude.{ℕ, ◌/◌, ◌%◌, ◌+◌, ◌-◌, ◌||◌, [], ◌∷◌, ◌++◌, Text, ltb, ◌==◌, if◌then◌else◌, lit}

hex_digit : ℕ → ℕ
hex_digit n = if ltb n 10 then b'0' + n else b'a' + (n % 16) - 10

-- The hexadecimal digits of a number below 256.
hex_text : ℕ → Text
unfolding hex_digit
hex_text n = if ltb n 16 then hex_digit n ∷ [] else hex_digit (n / 16) ∷ hex_digit (n % 16) ∷ []

debug_char : ℕ → Text
unfolding hex_text lit
debug_char c =
    if c == 34 || c == 92
    then 92 ∷ c ∷ []
    else if c == 0
    then 92 ∷ b'0' ∷ []
    else if c == 9
    then 92 ∷ b't' ∷ []
    else if c == 10
    then 92 ∷ b'n' ∷ []
    else if c == 13
    then 92 ∷ b'r' ∷ []
    else if ltb c 32 || c == 127
    then 92 ∷ lit "u{" ++ hex_text c ++ lit "}"
    else c ∷ []

debug_chars : Text → Text
unfolding debug_char
debug_chars [] = []
debug_chars (c ∷ s) = debug_char c ++ debug_chars s

unfoldable pub debug_text : Text → Text
unfolding debug_chars
debug_text s = 34 ∷ debug_chars s ++ 34 ∷ []
