-- ===== src/Config.antt =====
-- `AppConfig` of src/app/config.rs: partitions, features and constraints. The values that `load`
-- reads from the environment and the machine are the fields of the record.
use slotd.Prelude.{
  ℕ, ◌/◌, Bool, true, false, ◌&&◌, ◌||◌, not, List, [], ◌∷◌, ◌++◌, map, reverse, Option, none, some,
  Text, lit, leb, ◌==◌, if◌then◌else◌, any, all, keep,
}
use slotd.Strings.{
  text_eq, is_empty, trim, is_digit, lower, eq_ignore_ascii_case, split, join, strip_prefix,
  split_whitespace, lines, parse_u64,
}

pub record AppConfig : Type 0 where
  pub jobs_dir : Text
  pub hostname : Text
  pub cancel_grace_secs : ℕ
  pub total_cpus : ℕ
  pub total_memory_mb : ℕ
  pub total_gpus : ℕ
  pub gpu_model : Text
  pub notify_command : Option Text
  pub cgroup_base : Option Text
  pub features : List Text
  pub cpu_partitions : List Text
  pub gpu_partitions : List Text
  pub default_partition : Text

unfoldable pub active_partitions : AppConfig → List Text
active_partitions c = c.cpu_partitions ++ c.gpu_partitions

unfoldable pub has_partition : AppConfig → Text → Bool
unfolding active_partitions
has_partition c partition = any (λ name. text_eq name partition) (active_partitions c)

unfoldable pub is_gpu_partition : AppConfig → Text → Bool
is_gpu_partition c partition = any (λ name. text_eq name partition) c.gpu_partitions

unfoldable pub default_gpus_for_partition : AppConfig → Text → ℕ
default_gpus_for_partition c partition = if is_gpu_partition c partition then 1 else 0

unfoldable pub feature_available : AppConfig → Text → Text → Bool
feature_available c partition feature =
    if eq_ignore_ascii_case feature (lit "cpu")
    then true
    else if is_gpu_partition c partition
    then not (eq_ignore_ascii_case feature (lit "gpu"))
    else false

unfoldable pub available_features_for_partition : AppConfig → Text → List Text
available_features_for_partition c partition = keep (feature_available c partition) c.features

unfoldable pub format_features : AppConfig → Text → Text
format_features c partition = join (lit ",") (available_features_for_partition c partition)

unfoldable pub is_ascii_alphanumeric : ℕ → Bool
unfolding is_digit
is_ascii_alphanumeric c = is_digit c || (leb b'a' c && leb c b'z') || (leb b'A' c && leb c b'Z')

normal_char : ℕ → ℕ
unfolding is_ascii_alphanumeric lower
normal_char c = if is_ascii_alphanumeric c then lower c else b'_'

strip_underscores : Text → Text
strip_underscores [] = []
strip_underscores (c ∷ s) = if c == b'_' then strip_underscores s else c ∷ s

unfoldable pub normalize_feature_name : Text → Text
unfolding normal_char strip_underscores
normalize_feature_name value =
    reverse (strip_underscores (reverse (strip_underscores (map normal_char value))))

-- `split([',', '&'])`: the commas become separators of the other kind first.
as_ampersand : ℕ → ℕ
as_ampersand c = if c == b',' then b'&' else c

unfoldable pub parse_constraint_terms : Text → List Text
unfolding as_ampersand
parse_constraint_terms value =
    keep (λ t. not (is_empty t))
      (map normalize_feature_name
        (keep (λ t. not (is_empty t)) (map trim (split b'&' (map as_ampersand value)))))

unfoldable pub matches_term : AppConfig → Text → Text → Bool
matches_term c partition term =
    eq_ignore_ascii_case term partition
    || any (λ feature. eq_ignore_ascii_case feature term)
        (available_features_for_partition c partition)

unfoldable pub matches_constraint : AppConfig → Text → Text → Bool
unfolding matches_term
matches_constraint c constraint partition =
    if is_empty (trim constraint)
    then true
    else all (matches_term c partition) (parse_constraint_terms constraint)

-- `parse_total_memory_mb`, over the contents of /proc/meminfo.
memory_value : List Text → Option ℕ
memory_value (number ∷ unit ∷ rest) = elim (parse_u64 number) [
  | none ↦ none
  | some kb ↦ if eq_ignore_ascii_case unit (lit "kB") then some (kb / 1024) else none
]
memory_value _ = none

memory_line : Text → Option ℕ
unfolding memory_value
memory_line line = elim (strip_prefix (lit "MemTotal:") line) [
  | none ↦ none
  | some value ↦ memory_value (split_whitespace value)
]

find_map : List Text → Option ℕ
unfolding memory_line
find_map [] = none
find_map (l ∷ ls) =
    let later = find_map ls in elim (memory_line l) [ none ↦ later | some v ↦ some v ]

unfoldable pub parse_total_memory_mb : Text → Option ℕ
unfolding find_map
parse_total_memory_mb contents = find_map (lines contents)
