-- ===== src/Daemon/Settled.antt =====
-- What `schedule_pending_jobs` of src/runtime/daemon.rs leaves waiting.
use slotd.Prelude.{
  ℕ, zero, suc, ◌≡◌, refl, ap, sym, ◌∙◌, Bool, true, false, ◌&&◌, List, [], ◌∷◌, map, ℤ, arith,
  keep, All, All-imp, Result, ok, err, diverges, all,
}
use mathlib.Core.List.{Perm, Permᴰ}
use mathlib.Core.Logic.{∥∥₁_elim}
use mathlib.Core.Bool.{Bool-set}
use slotd.Job.{JobRecord}
use slotd.Store.{Store, has_id, waits, is_pending, next_pending_jobs, order_pending_jobs}
use slotd.Store.Sound.{IsSound}
use slotd.Store.OrderLaws.{order-perm, order-All}
use slotd.Store.Current.{Current, Current-waits}
use slotd.Runtime.{World, Daemon, M, and_then, pure, lift, read, on_store}
use slotd.Runtime
use slotd.Runtime.Runs.{Done}
use slotd.Daemon.Dependency.{
  pending_block_reason, dependency_satisfied, array_at_limit, dependency_clause_satisfied,
}
use slotd.Daemon.Schedule.{one_round, schedule_rounds, waiting, schedule_pending_jobs}
use slotd.Daemon.Bare.{bare, bare_job, keep-bare}
use slotd.Daemon.Rounds.{After, one_round-Runs, next_jobs-Ready}
use slotd.Daemon.Stays.{can_start, can_start-bare, Waits, Refused, one_round-Stays}

and_swap : (a b c : Bool) → (b && (a && c)) ≡ (a && (b && c))
and_swap true b c = refl
and_swap false true c = refl
and_swap false false c = refl

-- A test that all elements pass does not depend on their order.
all-permᴰ : (p : JobRecord → Bool) {xs ys : List JobRecord} → Permᴰ xs ys → all p xs ≡ all p ys
unfolding all
all-permᴰ p Permᴰ.nil = refl
all-permᴰ p (Permᴰ.cons e q) = rw (e, all-permᴰ p q) refl
all-permᴰ p (Permᴰ.swap e f) = rw (e, f) (and_swap (p _) (p _) (all p _))
all-permᴰ p (Permᴰ.trans q r) = all-permᴰ p q ∙ all-permᴰ p r

all-perm : (p : JobRecord → Bool) {xs ys : List JobRecord} → Perm xs ys → all p xs ≡ all p ys
all-perm p q = ∥∥₁_elim q (Bool-set _ _) (all-permᴰ p)

refuses : Result Bool → Bool
refuses (ok false) = true
refuses (ok true) = false
refuses (err e) = false
refuses diverges = false

refuses-only : (r : Result Bool) → refuses r ≡ true → r ≡ ok false
unfolding refuses
refuses-only (ok false) h = refl
refuses-only (ok true) h = ground arith
refuses-only (err e) h = ground arith
refuses-only diverges h = ground arith

module _ (s : Store) (now : ℤ) where
  -- The test on a table without reasons.
  abbrev put_off : JobRecord → Bool
  put_off j = refuses (can_start (bare s) now j)

  all_put_off :
      (js : List JobRecord)
      → All (λ j. can_start (bare s) now j ≡ ok false) js
      → all put_off js ≡ true
  unfolding all refuses
  all_put_off [] h = refl
  all_put_off (j ∷ js) h = rw (h.0, all_put_off js h.1) refl

  put_off_all :
      (js : List JobRecord)
      → all put_off js ≡ true
      → All (λ j. can_start (bare s) now j ≡ ok false) js
  unfolding all
  put_off_all [] h = tt
  put_off_all (j ∷ js) h =
      (refuses-only (can_start (bare s) now j) (ground arith), put_off_all js (ground arith))

  put_off-bare : (js : List JobRecord) → all put_off (map bare_job js) ≡ all put_off js
  unfolding all can_start pending_block_reason dependency_satisfied array_at_limit
      dependency_clause_satisfied
  put_off-bare [] = refl
  put_off-bare (j ∷ js) = ap (λ (b : Bool). put_off j && b) (put_off-bare js)

-- What no job of one table may do, no job may do of a table that is the same but for reasons.
settled-bare :
    (s later : Store) (now : ℤ)
    → bare later ≡ bare s
    → All (λ j. can_start (bare s) now j ≡ ok false) (next_pending_jobs s)
    → All (λ j. can_start later now j ≡ ok false) (next_pending_jobs later)
unfolding next_pending_jobs
settled-bare s later now e h =
    All-imp (λ j. can_start (bare later) now j ≡ ok false) (λ j. can_start later now j ≡ ok false)
      (order_pending_jobs (keep waits later.jobs)) (λ j r. sym (can_start-bare later now j) ∙ r)
      (order-All (λ j. can_start (bare later) now j ≡ ok false) (keep waits later.jobs)
        (put_off_all later now (keep waits later.jobs) still))
  where
    before : all (put_off s now) (keep waits s.jobs) ≡ true
    before =
        sym (all-perm (put_off s now) (order-perm (keep waits s.jobs)))
        ∙ all_put_off s now (order_pending_jobs (keep waits s.jobs)) h

    bare_rows :
        (t : Store)
        → all (put_off t now) (keep waits (bare t).jobs) ≡ all (put_off t now) (keep waits t.jobs)
    bare_rows t =
        ap (all (put_off t now)) (keep-bare waits (λ j. refl) t.jobs)
        ∙ put_off-bare t now (keep waits t.jobs)

    still : all (put_off later now) (keep waits later.jobs) ≡ true
    still =
        sym (bare_rows later)
        ∙ ap (λ (t : Store). all (λ j. refuses (can_start t now j)) (keep waits t.jobs)) e
        ∙ bare_rows s
        ∙ before

both_true : (a b : Bool) → (a && b) ≡ true → a ≡ true
both_true true b e = refl
both_true false b e = e

waits-is_pending : (j : JobRecord) → waits j ≡ true → is_pending j ≡ true
waits-is_pending j e = both_true (is_pending j) _ e

Current-Waits : (s : Store) (job : JobRecord) → IsSound s → Current s job → Waits job s
Current-Waits s job v c = go s.jobs (Current-waits s job v.ordered c)
  where
    go :
        (js : List JobRecord)
        → All (λ j. has_id job.id j ≡ true → waits j ≡ true) js
        → All (λ k. has_id job.id k ≡ true → is_pending k ≡ true) (map bare_job js)
    go [] h = tt
    go (j ∷ js) h = (λ e. waits-is_pending j (h.0 e), go js h.1)

module _ (w : World) where
  abbrev Settled : Store → Type 0
  Settled s = All (λ j. can_start s w.now j ≡ ok false) (next_pending_jobs s)

  -- What the loop does behind one round, whose answer is `r`.
  rounds_rest :
      (n fuel : ℕ) (d : Daemon) (r : Result Bool × Daemon)
      → Done IsSound (After n) r.0 r.1.store
      → (r.0 ≡ ok false → Refused w (next_pending_jobs d.store) d r.1)
      → ((later : Daemon)
          → IsSound later.store
          → (schedule_rounds w fuel later).0 ≡ ok tt
          → Settled (schedule_rounds w fuel later).1.store)
      → (and_then r (λ b. elim b [ true ↦ schedule_rounds w fuel | false ↦ pure tt ])).0 ≡ ok tt
      → Settled
          (and_then r (λ b. elim b [ true ↦ schedule_rounds w fuel | false ↦ pure tt ])).1.store
  unfolding and_then
  rounds_rest n fuel d (ok true, later) v refused rest e = rest later v.sound e
  rounds_rest n fuel d (ok false, later) v refused rest e =
      unfold pure in settled-bare d.store later.store w.now (refused refl).0 (refused refl).1
  rounds_rest n fuel d (err x, later) v refused rest e = absurd (ground arith)
  rounds_rest n fuel d (diverges, later) v refused rest e = absurd (ground arith)

  schedule_rounds-Settled :
      (fuel : ℕ) (d : Daemon)
      → IsSound d.store
      → (schedule_rounds w fuel d).0 ≡ ok tt
      → Settled (schedule_rounds w fuel d).1.store
  unfolding schedule_rounds Runtime.◌>>=◌ read
  schedule_rounds-Settled zero d v e = absurd (unfold lift in ground arith)
  schedule_rounds-Settled (suc fuel) d v e =
      let ready = next_jobs-Ready w (waiting d.store) d.store v (omega arith) in
      rounds_rest (waiting d.store) fuel d (one_round w (next_pending_jobs d.store) d)
        ((one_round-Runs w (waiting d.store) (next_pending_jobs d.store)).apply d ready)
        (one_round-Stays w (next_pending_jobs d.store) d (
          All-imp (Current d.store) (λ j. Waits j d.store) (next_pending_jobs d.store)
            (λ j c. Current-Waits d.store j v c) ready.current))
        (schedule_rounds-Settled fuel) e

-- When the pass over the waiting jobs returns without an error from a sound table, no job that it leaves
-- waiting could be started: for each of them, in the table it leaves, there is a reason that blocks
-- it, or what it asks for does not fit beside what is running.
pub schedule_pending_jobs-Settled :
    (w : World) (d : Daemon)
    → IsSound d.store
    → (schedule_pending_jobs w d).0 ≡ ok tt
    → All
        (λ j. can_start (schedule_pending_jobs w d).1.store w.now j ≡ ok false)
        (next_pending_jobs (schedule_pending_jobs w d).1.store)
unfolding schedule_pending_jobs Runtime.◌>>=◌ read and_then
schedule_pending_jobs-Settled w d v e = schedule_rounds-Settled w (suc (waiting d.store)) d v e
