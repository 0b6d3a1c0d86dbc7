-- ===== src/Runtime/CpuBind.antt =====
-- `resolve_cpu_bind_ids` of src/runtime/cpu.rs.
use slotd.Prelude.{
  ℕ, zero, suc, not, List, [], ◌∷◌, ◌++◌, map, Option, none, some, Text, lit, leb, ltb, ◌==◌, min,
  max, if◌then◌else◌, keep, sort_by, Result, ok, err, ◌>>=◌, ◌>>◌, guard, message, ok_or,
}
use slotd.Strings.{
  trim, is_empty, to_ascii_lowercase, text_eq, strip_prefix, split, parse_u64, show_nat,
}

unfoldable pub count_from : ℕ → ℕ → List ℕ
count_from start zero = []
count_from start (suc n) = start ∷ count_from (suc start) n

unfoldable pub parse_cpus : ℕ → List Text → Result (List ℕ)
parse_cpus total_cpus [] = ok []
parse_cpus total_cpus (part ∷ parts) = do
  cpu ← ok_or (parse_u64 part) (message (lit "invalid cpu-bind cpu id: " ++ part))
  guard (ltb cpu total_cpus)
      (message (lit "cpu-bind cpu id " ++ (show_nat cpu ++ lit " exceeds available CPUs")))
  rest ← parse_cpus total_cpus parts
  ok (cpu ∷ rest)

unfoldable pub dedup_cpus : List ℕ → List ℕ
dedup_cpus [] = []
dedup_cpus (x ∷ []) = x ∷ []
dedup_cpus (x ∷ y ∷ ys) = let rest = dedup_cpus (y ∷ ys) in if x == y then rest else x ∷ rest

unfoldable pub sorted_cpus : List ℕ → Result (Option (List ℕ))
unfolding sort_by dedup_cpus
sorted_cpus [] = err (message (lit "cpu-bind map_cpu requires at least one CPU id"))
sorted_cpus (c ∷ cs) = ok (some (dedup_cpus (sort_by leb (c ∷ cs))))

-- What stands after `map_cpu:`, if that is how the value begins.
unfoldable pub map_value : Text → ℕ → Option Text → Result (Option (List ℕ))
unfolding sorted_cpus parse_cpus keep
map_value value total_cpus none = err (
    message (
      lit "unsupported cpu-bind value: "
      ++ (value ++ lit "; supported: none, cores, map_cpu:<ids>")))
map_value value total_cpus (some list) =
    parse_cpus total_cpus (keep (λ p. not (is_empty p)) (map trim (split b',' list)))
    >>= sorted_cpus

unfoldable pub bind_value : Text → ℕ → ℕ → Result (Option (List ℕ))
unfolding map_value count_from
bind_value value total_cpus requested_cpus =
    let normalized = to_ascii_lowercase value in
    if text_eq normalized (lit "none")
    then ok none
    else if text_eq normalized (lit "cores")
    then ok (some (count_from 0 (max (min requested_cpus total_cpus) 1)))
    else map_value value total_cpus (strip_prefix (lit "map_cpu:") normalized)

unfoldable pub resolve_cpu_bind_ids : Option Text → ℕ → ℕ → Result (Option (List ℕ))
unfolding bind_value
resolve_cpu_bind_ids none total_cpus requested_cpus = ok none
resolve_cpu_bind_ids (some value) total_cpus requested_cpus =
    if is_empty (trim value) then ok none else bind_value (trim value) total_cpus requested_cpus
