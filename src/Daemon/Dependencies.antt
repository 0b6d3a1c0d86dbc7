-- ===== src/Daemon/Dependencies.antt =====
-- The kinds of dependency of `dependency_clause_satisfied` of src/runtime/daemon.rs.
use slotd.Prelude.{◌≡◌, refl, Bool, true, false, ◌||◌, ◌&&◌, not, lit, Option, none, some, ℤ}
use slotd.Strings.{text_eq}
use slotd.Job.{
  JobRecord, JobState, pending, running, completing, completed, failed, cancelled, timeout,
  out_of_memory, is_terminal, state_eq,
}
use slotd.Daemon.Dependency.{kind_satisfied, is_some}

-- The states in which a job is over, by whether it did what it should.
ended_well : JobState → Bool
ended_well completed = true
ended_well _ = false

ended_badly : JobState → Bool
ended_badly failed = true
ended_badly cancelled = true
ended_badly timeout = true
ended_badly out_of_memory = true
ended_badly _ = false

has_begun : Option ℤ → Bool
has_begun none = false
has_begun (some t) = true

-- What each kind of dependency waits for.
pub record Kinds (target : JobRecord) : Type 0 where
  after_ok : kind_satisfied (lit "afterok") target ≡ ended_well target.state
  after_not_ok : kind_satisfied (lit "afternotok") target ≡ ended_badly target.state
  after_any :
      kind_satisfied (lit "afterany") target ≡ (ended_well target.state || ended_badly target.state)
  after_begin :
      kind_satisfied (lit "after") target
      ≡ (has_begun target.start_time || (ended_well target.state || ended_badly target.state))

by_state :
    (s : JobState)
    → (state_eq s completed ≡ ended_well s)
      × ((is_terminal s && not (state_eq s completed)) ≡ ended_badly s)
      × (is_terminal s ≡ (ended_well s || ended_badly s))
unfolding ended_well ended_badly
by_state pending = (refl, refl, refl)
by_state running = (refl, refl, refl)
by_state completing = (refl, refl, refl)
by_state completed = (refl, refl, refl)
by_state failed = (refl, refl, refl)
by_state cancelled = (refl, refl, refl)
by_state timeout = (refl, refl, refl)
by_state out_of_memory = (refl, refl, refl)

begun : (o : Option ℤ) (a b : Bool) → a ≡ b → (is_some o || a) ≡ (has_begun o || b)
unfolding has_begun
begun none a b h = h
begun (some t) a b h = refl

-- On a job of the table, `afterok` holds exactly when the job is COMPLETED, `afternotok` exactly when it is
-- FAILED, CANCELLED, TIMEOUT or OUT_OF_MEMORY, `afterany` when one of the two holds, and `after` when the
-- job has a start time or is over.
pub kind_satisfied-state : (target : JobRecord) → Kinds target
unfolding kind_satisfied text_eq lit
kind_satisfied-state target =
    let (well, badly, over) = by_state target.state in
    record {
      after_ok = well;
      after_not_ok = badly;
      after_any = over;
      after_begin = begun target.start_time (is_terminal target.state) _ over;
    }
