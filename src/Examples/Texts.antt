-- ===== src/Examples/Texts.antt =====
-- Scripts, patterns and arrays.
use slotd.Prelude.{
  List, ok, Option, ℤ, ◌≡◌, refl, [], ◌∷◌, none, some, lit, pos, diverges, All, arith, ◌↔◌, false,
  ◌==◌,
}
use slotd.Strings.{trim, starts_with, is_empty}
use slotd.Job.{completed, running, state_str, state_from_str, parsed}
use slotd.Job.Names.{from_str-state_str}
use slotd.Submit.ArraySpec.{push_range, i32_max}
use slotd.Submit.ArraySpec.Range.{push_range-diverges, push_range-ends, Between}
use slotd.Submit.Pattern.{Names}
use slotd.Submit.Pattern.Laws.{expand_output_pattern-Codes, Codes, codes}
use slotd.Submit.Directives.{scan_lines, line_kind, ends, no_directives}
use slotd.Submit.Directives.Laws.{scan_lines-stops}
use slotd.Runtime.{terminal_state_with_reasons}
use slotd.Runtime.EndingLaws.{terminal_state_with_reasons-completed}

push_range-diverges_example : push_range 1000 (pos 2147483640) i32_max (pos 1) ≡ diverges
push_range-diverges_example =
    push_range-diverges 1000 (pos 2147483640) 1 (ground arith) (omega arith)

abbrev names : Names
names = record {
  job_id = 12;
  job_name = lit "train";
  user_name = lit "ana";
  hostname = lit "node";
  array_job_id = none;
  array_task_id = none;
}

log_literal : All (λ x. (x == b'%') ≡ false) (lit "log-")
unfolding lit
log_literal = (refl, (refl, (refl, (refl, tt))))

no_code : All (λ x. (b'z' == x) ≡ false) codes
unfolding lit
no_code = (refl, (refl, (refl, (refl, (refl, (refl, (refl, tt)))))))

expand_output_pattern-Codes_example : Codes names (lit "log-") (lit ".out") b'z'
expand_output_pattern-Codes_example =
    expand_output_pattern-Codes names (lit "log-") (lit ".out") b'z' log_literal no_code

command_ends : line_kind (trim (lit "echo hi")) ≡ ends
unfolding line_kind starts_with lit trim is_empty
command_ends = refl

scan_lines-stops_example :
    scan_lines no_directives (lit "#SBATCH -n 2" ∷ lit "echo hi" ∷ lit "#SBATCH -n 4" ∷ [])
    ≡ scan_lines no_directives (lit "#SBATCH -n 2" ∷ lit "echo hi" ∷ [])
scan_lines-stops_example =
    scan_lines-stops no_directives (lit "#SBATCH -n 2" ∷ []) (lit "echo hi")
      (lit "#SBATCH -n 4" ∷ []) command_ends

abbrev no_signal : Option ℤ
no_signal = none

terminal_state_with_reasons-completed_example :
    ((terminal_state_with_reasons
        (some (pos 0))
        no_signal
        false
        (lit "a")
        (lit "b")
        (lit "c")
        (lit "d")).0
      ≡ completed)
    ↔ ((false ≡ false) × (no_signal ≡ none) × (some (pos 0) ≡ some (pos 0)))
terminal_state_with_reasons-completed_example =
    terminal_state_with_reasons-completed (some (pos 0)) no_signal false (lit "a") (lit "b")
      (lit "c") (lit "d")

from_str-state_str_example : state_from_str (state_str running) ≡ parsed running
from_str-state_str_example = from_str-state_str running

push_range-ends_example :
    (ids : List ℤ) × (push_range 11 (pos 1) (pos 10) (pos 2) ≡ ok ids) × All (Between 1 10) ids
push_range-ends_example = push_range-ends 10 1 10 1 (omega arith) (omega arith)
