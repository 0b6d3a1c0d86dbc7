-- ===== src/Command/Waiting.antt =====
-- The waiting loop of `salloc` and `srun`, of src/command/submit/wait.rs, against a daemon that tells
-- the job's row again and again.
use slotd.Prelude.{
  ℕ, zero, suc, ◌+◌, ◌<◌, ◌≤◌, ◌≡◌, refl, ap, sym, subst, ◌∙◌, true, false, some, Text, Result, ok,
  arith,
}
use slotd.Job.{JobRecord, state_eq, running, is_terminal}
use slotd.Daemon.{Request, Response, job}
use slotd.Command.Client.{run, asking, chain, send_request, from_result, done}
use slotd.Command.Wait.{leaves, again, repeats, running_round, wait_for_job_running}

-- The k-th answer is the k-th row.
unfoldable pub telling : (rows : ℕ → JobRecord) → ℕ → Request → Result Response × ℕ
telling rows k request = (ok (job (some (rows k))), suc k)

-- The job neither runs nor is over.
abbrev pub StillWaits : JobRecord → Type 0
StillWaits entry = (state_eq entry.state running ≡ false) × (is_terminal entry.state ≡ false)

module _ (debug : Response → Text) (rows : ℕ → JobRecord) (job_id : ℕ) where
  round-again :
      (entry : JobRecord) → StillWaits entry → running_round debug job_id (job (some entry)) ≡ again
  unfolding running_round
  round-again entry h = rw (h.0, h.1) refl

  round-leaves :
      (entry : JobRecord)
      → state_eq entry.state running ≡ true
      → running_round debug job_id (job (some entry)) ≡ leaves (done entry)
  unfolding running_round
  round-leaves entry h = rw h refl

  wait_step :
      (rounds k : ℕ)
      → run (telling rows) (wait_for_job_running debug (suc rounds) job_id) k
        ≡ run
            (telling rows)
            (repeats
              (running_round debug job_id (job (some (rows k))))
              (wait_for_job_running debug rounds job_id))
            (suc k)
  unfolding run telling wait_for_job_running asking chain send_request from_result
  wait_step rounds k = refl

  wait_from :
      (n rounds k m : ℕ)
      → n < rounds
      → m ≡ n + k
      → ((i : ℕ) → k ≤ i → i < m → StillWaits (rows i))
      → state_eq (rows m).state running ≡ true
      → run (telling rows) (wait_for_job_running debug rounds job_id) k ≡ (ok (rows m), suc m)
  wait_from n zero k m l e h r = absurd (omega arith)
  wait_from zero (suc rounds) k m l e h r =
      wait_step rounds k
      ∙ rw (round-leaves (rows k) (subst (λ i. state_eq (rows i).state running ≡ true) here r))
          (unfold run done in ap (λ i. (ok (rows i), suc i)) (sym here))
    where
      here : m ≡ k
      here = omega (arith, e)
  wait_from (suc n) (suc rounds) k m l e h r =
      wait_step rounds k
      ∙ rw (round-again (rows k) (h k (omega arith) (omega (arith, e)))) (
          wait_from n rounds (suc k) m (omega arith) (omega (arith, e))
            (λ i a b. h i (omega arith) b) r)

-- When the daemon tells in its n-th answer (counted from 0) that the job runs, and in each answer before
-- it that the job neither runs nor is over, then the waiting loop, with any number of rounds above n,
-- returns the row of that answer, having asked exactly n + 1 times.
pub wait_for_job_running-telling :
    (debug : Response → Text) (rows : ℕ → JobRecord) (job_id n rounds : ℕ)
    → n < rounds
    → ((i : ℕ) → i < n → StillWaits (rows i))
    → state_eq (rows n).state running ≡ true
    → run (telling rows) (wait_for_job_running debug rounds job_id) 0 ≡ (ok (rows n), suc n)
wait_for_job_running-telling debug rows job_id n rounds l h r =
    wait_from debug rows job_id n rounds 0 n l (omega arith) (λ i a b. h i b) r
