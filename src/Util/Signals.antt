-- ===== src/Util/Signals.antt =====
-- src/util/signals.rs: names of signals. The numbers are those of Linux.
use slotd.Prelude.{
  ℕ, List, [], ◌∷◌, ◌++◌, none, some, Text, lit, ℤ, pos, Result, ok, message, ok_or, ◌>>=◌,
}
use slotd.Strings.{
  trim, trim_start_matches, to_ascii_uppercase, text_case, parse_i32, parse_u64, strip_prefix,
  split_once,
}
use slotd.Job.{WarningSignal, unwrap_or}

abbrev signals : List (Text × ℕ)
signals =
    (lit "TERM", 15)
    ∷ (lit "KILL", 9)
    ∷ (lit "INT", 2)
    ∷ (lit "HUP", 1)
    ∷ (lit "QUIT", 3)
    ∷ (lit "USR1", 10)
    ∷ (lit "USR2", 12)
    ∷ (lit "CONT", 18)
    ∷ (lit "STOP", 19)
    ∷ (lit "TSTP", 20)
    ∷ (lit "ALRM", 14)
    ∷ []

unfoldable pub parse_signal_name : Text → Result ℤ
unfolding trim trim_start_matches to_ascii_uppercase text_case parse_i32 lit
parse_signal_name value =
    let normalized = to_ascii_uppercase (trim_start_matches (lit "SIG") (trim value)) in
    elim (text_case signals normalized) [
      | some signal ↦ ok (pos signal)
      | none ↦ ok_or (parse_i32 normalized) (message (lit "unsupported signal: " ++ value))
    ]

-- The name and the offset around the `@`.
signal_parts : Text → Result (Text × ℕ)
unfolding split_once parse_u64 lit
signal_parts trimmed = elim (split_once b'@' trimmed) [
  | none ↦ ok (trimmed, 60)
  | some (signal_name, seconds_before_end) ↦ do
    seconds ←
        ok_or (parse_u64 seconds_before_end) (message (lit "invalid signal offset: " ++ trimmed))
    ok (signal_name, seconds)
]

unfoldable pub parse_warning_signal : Text → Result WarningSignal
unfolding trim strip_prefix signal_parts parse_signal_name lit
parse_warning_signal value = do
  parts ← signal_parts (unwrap_or (trim value) (strip_prefix (lit "B:") (trim value)))
  signal ← parse_signal_name parts.0
  ok (record { signal = signal; seconds_before_end = parts.1 })
