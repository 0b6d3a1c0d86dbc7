-- ===== src/Submit/Pattern.antt =====
-- `expand_output_pattern` and `resolve_log_path` of src/submit/sbatch.rs, with `Path::join`.
pub mod Laws
use slotd.Prelude.{
  ℕ, zero, suc, Bool, true, false, List, [], ◌∷◌, ◌++◌, Option, none, some, Text, lit, ◌==◌,
  if◌then◌else◌, ℤ,
}
use slotd.Strings.{show_nat, show_int, starts_with}
use slotd.Job.{unwrap_or}

-- What a pattern is expanded with.
pub record Names : Type 0 where
  pub job_id : ℕ
  pub job_name : Text
  pub user_name : Text
  pub hostname : Text
  pub array_job_id : Option ℕ
  pub array_task_id : Option ℤ

unfoldable pub array_task_text : Option ℤ → Text
array_task_text none = lit "4294967294"
array_task_text (some value) = show_int value

-- What stands for `%c`.
unfoldable pub expand_code : Names → ℕ → Text
unfolding array_task_text
expand_code n c =
    if c == b'%'
    then b'%' ∷ []
    else if c == b'j'
    then show_nat n.job_id
    else if c == b'A'
    then show_nat (unwrap_or n.job_id n.array_job_id)
    else if c == b'a'
    then array_task_text n.array_task_id
    else if c == b'x'
    then n.job_name
    else if c == b'u'
    then n.user_name
    else if c == b'N'
    then n.hostname
    else b'%' ∷ c ∷ []

unfoldable pub expand_output_pattern : Names → Text → Text
expand_output_pattern n [] = []
expand_output_pattern n (ch ∷ []) = ch ∷ []
expand_output_pattern n (ch ∷ c ∷ s) = elim (ch == b'%') [
  | true ↦ expand_code n c ++ expand_output_pattern n s
  | false ↦ ch ∷ expand_output_pattern n (c ∷ s)
]

unfoldable pub default_batch_output_pattern : Text
default_batch_output_pattern = lit "slurm-%j.out"

ends_with_slash : Text → Bool
ends_with_slash [] = true
ends_with_slash (c ∷ []) = c == b'/'
ends_with_slash (c ∷ d ∷ s) = ends_with_slash (d ∷ s)

is_absolute : Text → Bool
is_absolute [] = false
is_absolute (c ∷ s) = c == b'/'

-- `Path::join`.
unfoldable pub join_path : Text → Text → Text
unfolding ends_with_slash is_absolute
join_path base path =
    if is_absolute path
    then path
    else if ends_with_slash base
    then base ++ path
    else base ++ (b'/' ∷ path)

unfoldable pub resolve_log_path : Text → Text → Text
unfolding is_absolute
resolve_log_path cwd path = if is_absolute path then path else join_path cwd path
