-- ===== src/Command/Completing.antt =====
-- `sbatch --wait`: src/command/submit/wait.rs and batch.rs, against a daemon that tells the job's row again and
-- again.
use slotd.Prelude.{
  ℕ, zero, suc, ◌+◌, ◌<◌, ◌≤◌, ◌≡◌, refl, ap, sym, subst, ◌∙◌, true, false, none, some, Text,
  Result, ok, err, exit, arith, List, [], ◌∷◌, ◌++◌, lit, pos, if◌then◌else◌, Bool-cases, inl, inr,
}
use slotd.Strings.{show_nat}
use slotd.Config.{AppConfig}
use slotd.Job.{JobRecord, SubmitRequest, state_eq, completed, is_terminal, unwrap_or}
use slotd.Daemon.{Request, Response, job, submitted, submit_batch, get_job_of}
use slotd.Command.Arguments.{SbatchArgs}
use slotd.Command.Client.{
  Client, returns, sends, run, asking, chain, send_request, from_result, done,
}
use slotd.Command.Wait.{
  repeats, completion_round, wait_for_job_completion, wait_for_submission_completion, members_of,
  in_array, exit_with, exit_after, first_unfinished,
}
use slotd.Command.Sbatch.{Host, build_sbatch_request}
use slotd.Command.Allocation.{run_sbatch, sbatch_answer, wait_if}

run-chain :
    {A B S : Type 0} (serve : S → Request → Result Response × S) (c : Client A) (f : A → Client B)
    (s : S)
    → run serve (chain c f) s ≡ run serve (from_result (run serve c s).0 f) (run serve c s).1
unfolding run chain
run-chain serve (returns r) f s = refl
run-chain serve (sends request next) f s = run-chain serve (next _) f _

-- The exit of a client that waited for this job.
pub outcome : {A : Type 0} → JobRecord → A → Result A
outcome entry a =
    if state_eq entry.state completed then ok a else err (exit (unwrap_or (pos 1) entry.exit_code))

module _ {S : Type 0} (debug : Response → Text) (serve : S → Request → Result Response × S)
    (at : ℕ → S) (rows : ℕ → JobRecord) (job_id : ℕ)
    (tells : (k : ℕ)
      → serve (at k) (get_job_of job_id) ≡ (ok (job (some (rows k))), at (suc k))) where
  wait_step :
      (rounds k : ℕ)
      → run serve (wait_for_job_completion debug (suc rounds) job_id) (at k)
        ≡ run serve
            (repeats
              (completion_round debug job_id (job (some (rows k))))
              (wait_for_job_completion debug rounds job_id))
            (at (suc k))
  unfolding run wait_for_job_completion asking chain send_request from_result
  wait_step rounds k =
      ap
        (λ (p : Result Response × S).
          run serve
            (from_result p.0 (λ answer.
              repeats (completion_round debug job_id answer)
                (wait_for_job_completion debug rounds job_id)))
            p.1)
        (tells k)

  wait_from :
      (n rounds k m : ℕ)
      → n < rounds
      → m ≡ n + k
      → ((i : ℕ) → k ≤ i → i < m → is_terminal (rows i).state ≡ false)
      → is_terminal (rows m).state ≡ true
      → run serve (wait_for_job_completion debug rounds job_id) (at k) ≡ (ok (rows m), at (suc m))
  unfolding completion_round
  wait_from n zero k m l e h r = absurd (omega arith)
  wait_from zero (suc rounds) k m l e h r =
      wait_step rounds k
      ∙ rw (subst (λ i. is_terminal (rows i).state ≡ true) here r)
          (unfold run done in ap (λ i. (ok (rows i), at (suc i))) (sym here))
    where
      here : m ≡ k
      here = omega (arith, e)
  wait_from (suc n) (suc rounds) k m l e h r =
      wait_step rounds k
      ∙ rw (h k (omega arith) (omega (arith, e))) (
          wait_from n rounds (suc k) m (omega arith) (omega (arith, e))
            (λ i a b. h i (omega arith) b) r)

  alone :
      (rounds : ℕ) (entry : JobRecord) (s : S)
      → entry.array_job_id ≡ none
      → run serve (chain (members_of debug rounds (show_nat job_id) entry) (exit_with debug)) s
        ≡ (outcome entry tt, s)
  unfolding members_of in_array exit_with exit_after first_unfinished chain from_result done run
      outcome
  alone rounds entry s single = elim (Bool-cases (state_eq entry.state completed)) [
    | inl b ↦ rw (single, b) refl
    | inr b ↦ rw (single, b) refl
  ]

  waited :
      (n rounds : ℕ)
      → n < rounds
      → ((i : ℕ) → i < n → is_terminal (rows i).state ≡ false)
      → is_terminal (rows n).state ≡ true
      → (rows n).array_job_id ≡ none
      → run serve (wait_for_submission_completion debug rounds job_id) (at 0)
        ≡ (outcome (rows n) tt, at (suc n))
  unfolding wait_for_submission_completion from_result
  waited n rounds l h r single =
      run-chain serve (wait_for_job_completion debug rounds job_id) _ (at 0)
      ∙ ap
          (λ (p : Result JobRecord × S).
            run serve
              (from_result p.0
                (λ head. chain (members_of debug rounds (show_nat job_id) head) (exit_with debug)))
              p.1)
          (wait_from n rounds 0 n l (omega arith) (λ i a b. h i b) r)
      ∙ alone rounds (rows n) (at (suc n)) single

finished_line :
    {B S : Type 0} (serve : S → Request → Result Response × S) (entry : JobRecord) (b : B) (s : S)
    → run serve (from_result (outcome entry tt) (λ (u : Unit {0}). done b)) s ≡ (outcome entry b, s)
unfolding outcome from_result done run
finished_line serve entry b s = elim (Bool-cases (state_eq entry.state completed)) [
  | inl c ↦ rw c refl
  | inr c ↦ rw c refl
]

-- `sbatch --wait` sends the request it builds from its arguments; when the daemon takes it as a job of no
-- array, tells in its n-th answer to the questions for that job (counted from 0) that it is over, and in each
-- answer before it that it is not, then the client, with any number of rounds above n, has asked exactly n + 1
-- times, and succeeds with the line for the job when the job is COMPLETED, and else exits with the job's exit
-- code, or 1.
pub run_sbatch-outcome :
    {S : Type 0} (debug : Response → Text) (serve : S → Request → Result Response × S) (start : S)
    (at : ℕ → S) (rows : ℕ → JobRecord) (job_id : ℕ) (host : Host) (config : AppConfig)
    (foreground step : JobRecord → List Text → Client (List Text)) (args : SbatchArgs)
    (request : SubmitRequest) (n rounds : ℕ)
    → build_sbatch_request host config args ≡ ok request
    → args.wait ≡ true
    → serve start (submit_batch request) ≡ (ok (submitted job_id), at 0)
    → ((k : ℕ) → serve (at k) (get_job_of job_id) ≡ (ok (job (some (rows k))), at (suc k)))
    → n < rounds
    → ((i : ℕ) → i < n → is_terminal (rows i).state ≡ false)
    → is_terminal (rows n).state ≡ true
    → (rows n).array_job_id ≡ none
    → run serve (run_sbatch debug rounds host config foreground step args) start ≡ (
      outcome (rows n) (
          (if args.parsable then show_nat job_id else lit "Submitted batch job " ++ show_nat job_id)
          ∷ []),
      at (suc n),
    )
unfolding run_sbatch asking send_request chain run sbatch_answer from_result
run_sbatch-outcome {S = S} debug serve start at rows job_id host config foreground step args request
      n rounds built wait taken tells l h r single =
    let line =
      (if args.parsable then show_nat job_id else lit "Submitted batch job " ++ show_nat job_id)
      ∷ [] in
    let answer = sbatch_answer debug rounds host config foreground step args in
    ap
      (λ (b : Result SubmitRequest).
        run serve (from_result b (λ req. asking (submit_batch req) answer)) start)
      built
    ∙ ap (λ (p : Result Response × S). run serve (from_result p.0 answer) p.1) taken
    ∙ ap
        (λ w.
          run serve
            (chain (wait_if debug rounds host config foreground step w job_id)
              (λ waited. done line))
            (at 0))
        wait
    ∙ run-chain serve (wait_if debug rounds host config foreground step true job_id) _ (at 0)
    ∙ ap (λ (p : Result (Unit {0}) × S). run serve (from_result p.0 (λ waited. done line)) p.1)
        (unfold wait_if in waited debug serve at rows job_id tells n rounds l h r single)
    ∙ finished_line serve (rows n) line (at (suc n))
