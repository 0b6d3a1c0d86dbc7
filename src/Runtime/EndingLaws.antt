-- ===== src/Runtime/EndingLaws.antt =====
-- The classification of src/runtime/terminal.rs.
use slotd.Prelude.{
  zero, suc, ◌≡◌, refl, Bool, true, false, Option, none, some, Text, ℤ, pos, negsuc, ◌↔◌, arith,
}
use slotd.Job.{completed}
use slotd.Runtime.Endings.{terminal_state_with_reasons, exit_case}

-- A job that ended is COMPLETED exactly when it was not killed for memory, no signal ended it, and
-- its exit code is 0.
pub terminal_state_with_reasons-completed :
    (code sig : Option ℤ) (oom : Bool) (success signal_reason failure unknown : Text)
    → ((terminal_state_with_reasons code sig oom success signal_reason failure unknown).0
        ≡ completed)
      ↔ ((oom ≡ false) × (sig ≡ none) × (code ≡ some (pos 0)))
unfolding terminal_state_with_reasons exit_case
terminal_state_with_reasons-completed code sig true a b c e = ((λ h. cc), λ h. cc)
terminal_state_with_reasons-completed code (some x) false a b c e = ((λ h. cc), λ h. cc)
terminal_state_with_reasons-completed none none false a b c e = ((λ h. cc), λ h. cc)
terminal_state_with_reasons-completed (some (pos zero)) none false a b c e =
    ((λ h. (refl, refl, refl)), λ h. refl)
terminal_state_with_reasons-completed (some (pos (suc n))) none false a b c e =
    ((λ h. ground arith), λ h. ground arith)
terminal_state_with_reasons-completed (some (negsuc n)) none false a b c e =
    ((λ h. ground arith), λ h. ground arith)
