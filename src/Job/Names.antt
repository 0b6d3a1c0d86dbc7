-- ===== src/Job/Names.antt =====
-- The names of the states of src/model/job.rs, written and read.
use slotd.Prelude.{◌≡◌, ◌↔◌, refl, arith, true}
use slotd.Job.Defs.{
  JobState, pending, running, completing, completed, failed, cancelled, timeout, out_of_memory,
  parsed, state_str, state_from_str, state_eq,
}

-- Every state is read back from the text that the jobs table holds for it.
pub from_str-state_str : (s : JobState) → state_from_str (state_str s) ≡ parsed s
unfolding state_str state_from_str
from_str-state_str pending = refl
from_str-state_str running = refl
from_str-state_str completing = refl
from_str-state_str completed = refl
from_str-state_str failed = refl
from_str-state_str cancelled = refl
from_str-state_str timeout = refl
from_str-state_str out_of_memory = refl

pub state_eq_iff : (s t : JobState) → (state_eq s t ≡ true) ↔ (s ≡ t)
state_eq_iff s t = ground arith
