-- ===== src/Util/Env.antt =====
-- src/util/env.rs: the environment that a job is given. The process's own variables are an argument.
use slotd.Prelude.{
  ℕ, Bool, false, ◌&&◌, ◌||◌, not, List, [], ◌∷◌, ◌++◌, map, keep, all, Option, none, some, Text,
  lit, leb, ◌==◌, if◌then◌else◌, sort_by, Result, ok, err, message, guard, ◌>>=◌, ◌>>◌, Answer,
  to_result,
}
use slotd.Strings.{
  trim, is_empty, is_digit, split, split_once, lines, starts_with, eq_ignore_ascii_case,
  to_ascii_lowercase, text_eq, text_lt,
}
use slotd.Job.{unwrap_or}

abbrev pub Env : Type 0
Env = List (Text × Text)

name_char : ℕ → Bool
unfolding is_digit
name_char ch =
    is_digit ch || (leb b'A' ch && leb ch b'Z') || (leb b'a' ch && leb ch b'z') || ch == b'_'

starts_with_digit : Text → Bool
unfolding is_digit
starts_with_digit [] = false
starts_with_digit (c ∷ s) = is_digit c

unfoldable pub is_env_name : Text → Bool
unfolding name_char starts_with_digit is_empty all
is_env_name value = not (is_empty value) && all name_char value && not (starts_with_digit value)

unfoldable pub validate_env_name : Text → Result (Unit {0})
unfolding is_env_name lit
validate_env_name value =
    guard (is_env_name value) (message (lit "invalid environment variable name: " ++ value))

unfoldable pub upsert_env_pair : Env → Text → Text → Env
unfolding text_eq
upsert_env_pair [] key value = (key, value) ∷ []
upsert_env_pair ((name, old) ∷ env) key value =
    let rest = upsert_env_pair env key value in
    if text_eq name key then (name, value) ∷ env else (name, old) ∷ rest

-- The value of the first pair with this name.
unfoldable pub env_value : Env → Text → Option Text
unfolding text_eq
env_value [] key = none
env_value ((name, value) ∷ env) key =
    let rest = env_value env key in if text_eq name key then some value else rest

-- `std::env::vars()` as the list of pairs, `std::env::var` as its lookup.
unfoldable pub export_entry : Env → Env → Text → Result Env
unfolding eq_ignore_ascii_case split_once validate_env_name upsert_env_pair env_value lit
export_entry vars env entry =
    if eq_ignore_ascii_case entry (lit "all")
    then ok env
    else if eq_ignore_ascii_case entry (lit "none")
    then ok []
    else elim (split_once b'=' entry) [
      | some (key, value) ↦ validate_env_name key >> ok (upsert_env_pair env key value)
      | none ↦
          validate_env_name entry
          >> ok (upsert_env_pair env entry (unwrap_or [] (env_value vars entry)))
    ]

unfoldable pub export_entries : Env → Env → List Text → Result Env
unfolding export_entry
export_entries vars env [] = ok env
export_entries vars env (entry ∷ entries) =
    export_entry vars env entry >>= λ next. export_entries vars next entries

unfoldable pub resolve_export_spec : (vars : Env) → Text → (seed : Env) → Result Env
unfolding trim eq_ignore_ascii_case starts_with split keep is_empty export_entries lit
resolve_export_spec vars spec seed =
    let trimmed = trim spec in
    if eq_ignore_ascii_case trimmed (lit "none")
    then ok []
    else export_entries vars
        (if eq_ignore_ascii_case trimmed (lit "all") || starts_with (lit "ALL,") trimmed
          then vars
          else seed)
        (keep (λ entry. not (is_empty entry)) (map trim (split b',' trimmed)))

export_line : Text → Result (List (Text × Text))
unfolding is_empty split_once validate_env_name lit
export_line line = if is_empty line then ok [] else elim (split_once b'=' line) [
  | none ↦ err (message (lit "invalid export-file entry: " ++ line))
  | some (key, value) ↦ validate_env_name key >> ok ((key, value) ∷ [])
]

export_lines : List Text → Result Env
unfolding export_line trim
export_lines [] = ok []
export_lines (line ∷ ls) = do
  pair ← export_line (trim line)
  rest ← export_lines ls
  ok (pair ++ rest)

unfoldable pub parse_export_file_contents : Text → Result Env
unfolding export_lines lines
parse_export_file_contents contents = export_lines (lines contents)

-- `sort_by` on the names, and `dedup_by`, which keeps the first of neighbours with one name.
unfoldable pub dedup_behind : Text → Env → Env
unfolding text_eq
dedup_behind last [] = []
dedup_behind last ((name, value) ∷ env) =
    let same = dedup_behind last env in
    let other = dedup_behind name env in if text_eq name last then same else (name, value) ∷ other

unfoldable pub dedup_names : Env → Env
unfolding dedup_behind
dedup_names [] = []
dedup_names ((name, value) ∷ env) = (name, value) ∷ dedup_behind name env

unfoldable pub sort_names : Env → Env
unfolding sort_by text_lt
sort_names = sort_by (λ a b. not (text_lt b.0 a.0))

-- The file is what reading `--export-file` answers, when it is given.
unfoldable pub file_env : Option (Answer Text) → Result Env
unfolding parse_export_file_contents
file_env none = ok []
file_env (some answer) = to_result answer >>= parse_export_file_contents

unfoldable pub export_env : Env → Option Text → Env → Result Env
unfolding resolve_export_spec
export_env vars none env = ok env
export_env vars (some spec) env = resolve_export_spec vars spec env

unfoldable pub resolve_export_env :
    (vars : Env) → (export : Option Text) → (export_file : Option (Answer Text)) → Result Env
unfolding file_env export_env sort_names dedup_names
resolve_export_env vars export export_file = do
  seed ← file_env export_file
  env ← export_env vars export seed
  ok (dedup_names (sort_names env))

unfoldable pub parse_env_flag : Text → Bool
unfolding trim to_ascii_lowercase text_eq lit
parse_env_flag value =
    let flag = to_ascii_lowercase (trim value) in
    text_eq flag (lit "1") || text_eq flag (lit "true") || text_eq flag (lit "yes")
