-- ===== src/Submit/Directives.antt =====
-- `BatchDirectives`, `parse_directives` and `apply_tokens` of src/submit/sbatch.rs, and
-- `merge_batch_directives` of src/command/helpers.rs.
pub mod Laws
use slotd.Prelude.{
  ℕ, Bool, true, false, ◌||◌, List, [], ◌∷◌, ◌++◌, Option, none, some, Text, lit, if◌then◌else◌,
  not, Result, ok, err, ◌>>=◌, message, ok_or,
}
use slotd.Strings.{
  trim, is_empty, text_eq, strip_prefix, starts_with, trim_start_matches, split_whitespace, lines,
  parse_u32,
}
use slotd.Submit.Limits.{parse_mem_mb, parse_time_limit_secs}

pub record BatchDirectives : Type 0 where
  pub job_name : Option Text
  pub partition : Option Text
  pub cpus_per_task : Option ℕ
  pub ntasks : Option ℕ
  pub mem_mb : Option ℕ
  pub gpus : Option ℕ
  pub constraint : Option Text
  pub time_limit_secs : Option ℕ
  pub begin : Option Text
  pub exclusive : Bool
  pub requeue : Bool
  pub dependency : Option Text
  pub array_spec : Option Text
  pub output_path : Option Text
  pub error_path : Option Text
  pub chdir : Option Text

-- `BatchDirectives::default()`.
unfoldable pub no_directives : BatchDirectives
no_directives = record {
  job_name = none;
  partition = none;
  cpus_per_task = none;
  ntasks = none;
  mem_mb = none;
  gpus = none;
  constraint = none;
  time_limit_secs = none;
  begin = none;
  exclusive = false;
  requeue = false;
  dependency = none;
  array_spec = none;
  output_path = none;
  error_path = none;
  chdir = none;
}

-- What a token does: the new directives, and whether it took the next token too.
abbrev pub Applied : Type 0
Applied = Result (BatchDirectives × Bool)

-- A directive with a value writes it into one field, or refuses it. Its first argument is the
-- spelling of the flag, for the message.
abbrev pub Setter : Type 0
Setter = Text → Text → Result BatchDirectives

-- `--flag=value`.
unfoldable pub attached : Text → Setter → Text → Option Applied
attached flag set token = elim (strip_prefix (flag ++ lit "=") token) [
  | none ↦ none
  | some value ↦ some (set flag value >>= λ d. ok (d, false))
]

unfoldable pub require_value : Text → Option Text → Result Text
require_value flag value = ok_or value (message (lit "missing value for " ++ flag))

-- `--flag value`, under either of two spellings.
unfoldable pub separate : Text → Text → Setter → Text → Option Text → Option Applied
unfolding require_value
separate long short set token next =
    if text_eq token long || text_eq token short
    then some (require_value token next >>= λ value. set token value >>= λ d. ok (d, true))
    else none

unfoldable pub switch : Text → BatchDirectives → Text → Option Applied
switch flag d token = if text_eq token flag then some (ok (d, false)) else none

-- The first of a chain of `else if` that matches.
unfoldable pub first_match {ℓ} : {A : Type ℓ} → List (Option A) → A → A
first_match [] otherwise = otherwise
first_match (none ∷ rest) otherwise = first_match rest otherwise
first_match (some a ∷ rest) otherwise = a

unfoldable pub parse_flag_u32 : Text → Text → Result ℕ
parse_flag_u32 flag value =
    ok_or (parse_u32 value) (message (lit "invalid value for " ++ (flag ++ (lit ": " ++ value))))

module _ (d : BatchDirectives) where
  unfoldable pub set_job_name : Setter
  set_job_name flag value = ok (record d { job_name = some value })

  unfoldable pub set_partition : Setter
  set_partition flag value = ok (record d { partition = some value })

  unfoldable pub set_cpus_per_task : Setter
  set_cpus_per_task flag value = do
    n ← parse_flag_u32 flag value
    ok (record d { cpus_per_task = some n })

  unfoldable pub set_ntasks : Setter
  set_ntasks flag value = do n ← parse_flag_u32 flag value; ok (record d { ntasks = some n })

  unfoldable pub set_mem : Setter
  set_mem flag value = do n ← parse_mem_mb value; ok (record d { mem_mb = some n })

  unfoldable pub set_gpus : Setter
  set_gpus flag value = do n ← parse_flag_u32 flag value; ok (record d { gpus = some n })

  unfoldable pub set_constraint : Setter
  set_constraint flag value = ok (record d { constraint = some value })

  unfoldable pub set_begin : Setter
  set_begin flag value = ok (record d { begin = some value })

  unfoldable pub set_time : Setter
  set_time flag value = do
    n ← parse_time_limit_secs value
    ok (record d { time_limit_secs = some n })

  unfoldable pub set_dependency : Setter
  set_dependency flag value = ok (record d { dependency = some value })

  unfoldable pub set_array : Setter
  set_array flag value = ok (record d { array_spec = some value })

  unfoldable pub set_output : Setter
  set_output flag value = ok (record d { output_path = some value })

  unfoldable pub set_error : Setter
  set_error flag value = ok (record d { error_path = some value })

  unfoldable pub set_chdir : Setter
  set_chdir flag value = ok (record d { chdir = some value })

  -- The chain of tests for one token, in the order of the source.
  unfoldable pub apply_token : Text → Option Text → Applied
  unfolding attached separate switch first_match
  apply_token token next =
      first_match
        (attached (lit "--job-name") set_job_name token
          ∷ attached (lit "-J") set_job_name token
          ∷ attached (lit "--partition") set_partition token
          ∷ attached (lit "-p") set_partition token
          ∷ separate (lit "--partition") (lit "-p") set_partition token next
          ∷ separate (lit "--job-name") (lit "-J") set_job_name token next
          ∷ attached (lit "--cpus-per-task") set_cpus_per_task token
          ∷ attached (lit "-c") set_cpus_per_task token
          ∷ separate (lit "--cpus-per-task") (lit "-c") set_cpus_per_task token next
          ∷ attached (lit "--ntasks") set_ntasks token
          ∷ attached (lit "-n") set_ntasks token
          ∷ separate (lit "--ntasks") (lit "-n") set_ntasks token next
          ∷ attached (lit "--mem") set_mem token
          ∷ separate (lit "--mem") (lit "--mem") set_mem token next
          ∷ attached (lit "--gpus") set_gpus token
          ∷ attached (lit "--constraint") set_constraint token
          ∷ separate (lit "--constraint") (lit "--constraint") set_constraint token next
          ∷ attached (lit "--begin") set_begin token
          ∷ separate (lit "--begin") (lit "--begin") set_begin token next
          ∷ switch (lit "--exclusive") (record d { exclusive = true }) token
          ∷ switch (lit "--requeue") (record d { requeue = true }) token
          ∷ attached (lit "--time") set_time token
          ∷ attached (lit "-t") set_time token
          ∷ separate (lit "--time") (lit "-t") set_time token next
          ∷ attached (lit "--dependency") set_dependency token
          ∷ attached (lit "-d") set_dependency token
          ∷ separate (lit "--dependency") (lit "-d") set_dependency token next
          ∷ attached (lit "--array") set_array token
          ∷ attached (lit "-a") set_array token
          ∷ separate (lit "--array") (lit "-a") set_array token next
          ∷ attached (lit "-G") set_gpus token
          ∷ separate (lit "--gpus") (lit "-G") set_gpus token next
          ∷ attached (lit "--output") set_output token
          ∷ attached (lit "-o") set_output token
          ∷ separate (lit "--output") (lit "-o") set_output token next
          ∷ attached (lit "--error") set_error token
          ∷ attached (lit "-e") set_error token
          ∷ separate (lit "--error") (lit "-e") set_error token next
          ∷ attached (lit "--chdir") set_chdir token
          ∷ attached (lit "-D") set_chdir token
          ∷ separate (lit "--chdir") (lit "-D") set_chdir token next
          ∷ [])
        (ok (d, false))

abbrev next_token : List Text → Option Text
next_token [] = none
next_token (t ∷ ts) = some t

-- `skip` says that the token before took this one as its value.
unfoldable pub apply_from : Bool → BatchDirectives → List Text → Result BatchDirectives
apply_from skip d [] = ok d
apply_from true d (token ∷ rest) = apply_from false d rest
apply_from false d (token ∷ rest) = do
  p ← apply_token d token (next_token rest)
  apply_from p.1 p.0 rest

unfoldable pub apply_tokens : BatchDirectives → List Text → Result BatchDirectives
unfolding apply_from
apply_tokens d tokens = apply_from false d tokens

-- A line that is a directive, one that is passed over, and the first command, which ends the scan.
pub data Line : Type 0 where
  directive : Text → Line
  ignored ends : Line

unfoldable pub line_kind : Text → Line
line_kind trimmed =
    if starts_with (lit "#!") trimmed
    then ignored
    else if not (starts_with (lit "#SBATCH") trimmed)
    then (if is_empty trimmed || starts_with (lit "#") trimmed then ignored else ends)
    else directive (trim (trim_start_matches (lit "#SBATCH") trimmed))

-- What a line does, and then the scan of the other lines.
unfoldable pub scan_line :
    Line → BatchDirectives → (BatchDirectives → Result BatchDirectives) → Result BatchDirectives
scan_line (directive args) d others =
    if is_empty args then others d else (apply_tokens d (split_whitespace args) >>= others)
scan_line ignored d others = others d
scan_line ends d others = ok d

unfoldable pub scan_lines : BatchDirectives → List Text → Result BatchDirectives
unfolding line_kind scan_line
scan_lines d [] = ok d
scan_lines d (raw ∷ rest) = scan_line (line_kind (trim raw)) d (λ d'. scan_lines d' rest)

unfoldable pub parse_directives : Text → Result BatchDirectives
unfolding scan_lines no_directives
parse_directives body = scan_lines no_directives (lines body)

-- `Option::or`.
abbrev pub or_else {ℓ} : {A : Type ℓ} → Option A → Option A → Option A
or_else none b = b
or_else (some a) b = some a

unfoldable pub merge_batch_directives : BatchDirectives → BatchDirectives → BatchDirectives
merge_batch_directives directives overrides = record {
  job_name = or_else overrides.job_name directives.job_name;
  partition = or_else overrides.partition directives.partition;
  cpus_per_task = or_else overrides.cpus_per_task directives.cpus_per_task;
  ntasks = or_else overrides.ntasks directives.ntasks;
  mem_mb = or_else overrides.mem_mb directives.mem_mb;
  gpus = or_else overrides.gpus directives.gpus;
  constraint = or_else overrides.constraint directives.constraint;
  time_limit_secs = or_else overrides.time_limit_secs directives.time_limit_secs;
  begin = or_else overrides.begin directives.begin;
  exclusive = overrides.exclusive || directives.exclusive;
  requeue = overrides.requeue || directives.requeue;
  dependency = or_else overrides.dependency directives.dependency;
  array_spec = or_else overrides.array_spec directives.array_spec;
  output_path = or_else overrides.output_path directives.output_path;
  error_path = or_else overrides.error_path directives.error_path;
  chdir = or_else overrides.chdir directives.chdir;
}
