-- ===== src/Command/Quoting.antt =====
-- `shell_quote` and `shell_join` of src/runtime/launch.rs.
use slotd.Prelude.{ℕ, Bool, ◌||◌, List, [], ◌∷◌, ◌++◌, map, Text, ◌==◌, if◌then◌else◌, all}
use slotd.Strings.{is_empty, join}
use slotd.Config.{is_ascii_alphanumeric}

unfoldable pub plain_char : ℕ → Bool
unfolding is_ascii_alphanumeric
plain_char c =
    is_ascii_alphanumeric c || c == b'/' || c == b'_' || c == b'-' || c == b'.' || c == b':'

-- `replace('\'', "'\"'\"'")`.
unfoldable pub escape_quotes : Text → Text
escape_quotes [] = []
escape_quotes (c ∷ s) =
    let rest = escape_quotes s in if c == 39 then 39 ∷ 34 ∷ 39 ∷ 34 ∷ 39 ∷ rest else c ∷ rest

unfoldable pub shell_quote : Text → Text
unfolding is_empty all plain_char escape_quotes
shell_quote value =
    if is_empty value
    then 39 ∷ 39 ∷ []
    else if all plain_char value
    then value
    else 39 ∷ escape_quotes value ++ 39 ∷ []

unfoldable pub shell_join : List Text → Text
unfolding join shell_quote
shell_join args = join (32 ∷ []) (map shell_quote args)
