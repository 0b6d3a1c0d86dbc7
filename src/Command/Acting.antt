-- ===== src/Command/Acting.antt =====
-- What `scancel` and `scontrol` make the daemon do.
use slotd.Prelude.{
  ℤ, ℕ, suc, ◌≡◌, refl, ap, ◌∙◌, ◌≤◌, none, some, List, Option, Text, lit, Result, ok, err,
  diverges, SlotdError,
}
use slotd.Strings.{show_nat, eq_ignore_ascii_case, i64_max}
use slotd.Strings.Decimal.{parse_i64-show_nat, split_once-show_nat}
use slotd.Config.{AppConfig}
use slotd.Runtime.{World, Daemon}
use slotd.Daemon.{
  Request, Response, submitted, jobs, job, was_cancelled, node, error, cancel, signal_job, hold,
  release, dispatch_request,
}
use slotd.Util.Signals.{parse_signal_name}
use slotd.Command.Client.{
  Client, returns, sends, run, asking, chain, send_request, from_result, done, refuse,
}
use slotd.Command.Helpers.{resolve_job_reference, reference_of_parts, row_id}
use slotd.Command.Control.{
  run_scancel, scancel_job, signal_answer, cancel_answer, control_answer, submit_control_request,
  run_scontrol,
}
use slotd.Command.Session.{handle_stream}

-- The client sends nothing more.
Stops : {A : Type 0} → Client A → Type 0
Stops (returns r) = Unit
Stops (sends request next) = ⊥

module _ {A S : Type 0} (serve : S → Request → Result Response × S) where
  run-Stops : (c : Client A) (s : S) → Stops c → (run serve c s).1 ≡ s
  unfolding Stops run
  run-Stops (returns r) s h = refl
  run-Stops (sends request next) s h = absurd h

  from_result-Stops :
      (f : Response → Client A) (h : (r : Response) → Stops (f r)) (a : Result Response)
      → Stops (from_result a f)
  unfolding from_result Stops
  from_result-Stops f h (ok r) = h r
  from_result-Stops f h (err e) = tt
  from_result-Stops f h diverges = tt

  -- One request, and the client is done whatever comes back.
  asking-once :
      (request : Request) (f : Response → Client A) (s : S)
      → ((r : Response) → Stops (f r))
      → (run serve (asking request f) s).1 ≡ (serve s request).1
  unfolding run asking chain send_request
  asking-once request f s h =
      run-Stops (from_result (serve s request).0 f) (serve s request).1
        (from_result-Stops f h (serve s request).0)

module _ (debug : Response → Text) where
  signal_answer-Stops : (r : Response) → Stops (signal_answer debug r)
  unfolding signal_answer done refuse Stops
  signal_answer-Stops (submitted i) = tt
  signal_answer-Stops (error problem) = tt
  signal_answer-Stops (jobs found) = tt
  signal_answer-Stops (job o) = tt
  signal_answer-Stops (was_cancelled i) = tt
  signal_answer-Stops (node info) = tt

  cancel_answer-Stops : (r : Response) → Stops (cancel_answer debug r)
  unfolding cancel_answer done refuse Stops
  cancel_answer-Stops (submitted i) = tt
  cancel_answer-Stops (error problem) = tt
  cancel_answer-Stops (jobs found) = tt
  cancel_answer-Stops (job o) = tt
  cancel_answer-Stops (was_cancelled i) = tt
  cancel_answer-Stops (node info) = tt

  control_answer-Stops : (action : Text) (r : Response) → Stops (control_answer debug action r)
  unfolding control_answer done refuse Stops
  control_answer-Stops action (submitted i) = tt
  control_answer-Stops action (error problem) = tt
  control_answer-Stops action (jobs found) = tt
  control_answer-Stops action (job o) = tt
  control_answer-Stops action (was_cancelled i) = tt
  control_answer-Stops action (node info) = tt

  resolved : (id : ℕ) → id ≤ i64_max → resolve_job_reference debug (show_nat id) ≡ done id
  unfolding resolve_job_reference reference_of_parts from_result row_id
  resolved id small =
      rw (split_once-show_nat id, reference_of_parts, parse_i64-show_nat id small) refl

  scancel_of :
      (id : ℕ) (name : Option Text)
      → id ≤ i64_max
      → run_scancel debug (record { signal = name; job_id = show_nat id })
        ≡ scancel_job debug name id
  unfolding run_scancel chain from_result done
  scancel_of id name small =
      ap (λ (c : Client ℕ). chain c (scancel_job debug name)) (resolved id small)

-- What the session leaves: one request served, with its world.
abbrev pub Serves :
    (text_of : SlotdError → Text) (worlds : ℕ → World) (n : ℕ) (d : Daemon)
    → Client (List Text)
    → Request
    → Type 0
Serves text_of worlds n d c request =
    (run (handle_stream text_of worlds) c (n, d)).1
    ≡ (suc n, (dispatch_request (worlds n) request d).1)

pub record ActsOn (debug : Response → Text) (text_of : SlotdError → Text) (worlds : ℕ → World)
    (config : AppConfig) (id : ℕ) (name : Text) (signal : ℤ) (updates : List Text) (n : ℕ)
    (d : Daemon) : Type 0 where
  cancels :
      Serves text_of worlds n d
        (run_scancel debug (record { signal = none; job_id = show_nat id }))
        (cancel id)
  signals :
      Serves text_of worlds n d
        (run_scancel debug (record { signal = some name; job_id = show_nat id }))
        (signal_job id signal)
  holds :
      Serves text_of worlds n d
        (run_scontrol debug config
          (record { action = lit "hold"; entity = lit "job"; job_id = id; updates = updates }))
        (hold id)
  releases :
      Serves text_of worlds n d
        (run_scontrol debug config
          (record { action = lit "release"; entity = lit "job"; job_id = id; updates = updates }))
        (release id)

-- `scancel ID` leaves the daemon as serving one request to cancel the job ID does, and with a signal name that
-- is known as serving one request to send that signal to the job; `scontrol hold job ID` and `scontrol
-- release job ID` leave it as serving one request to hold and to release the job do.
pub run_scancel-ActsOn :
    (debug : Response → Text) (text_of : SlotdError → Text) (worlds : ℕ → World)
    (config : AppConfig) (id : ℕ) (name : Text) (signal : ℤ) (updates : List Text) (n : ℕ)
    (d : Daemon)
    → id ≤ i64_max
    → parse_signal_name name ≡ ok signal
    → ActsOn debug text_of worlds config id name signal updates n d
unfolding run_scontrol submit_control_request eq_ignore_ascii_case handle_stream scancel_job lit
run_scancel-ActsOn debug text_of worlds config id name signal updates n d small known =
    let serve = handle_stream text_of worlds in
    let scancel : (o : Option Text)
        → (run serve (run_scancel debug (record { signal = o; job_id = show_nat id })) (n, d)).1
          ≡ (run serve (scancel_job debug o id) (n, d)).1 =
      λ o. ap (λ (c : Client (List Text)). (run serve c (n, d)).1) (scancel_of debug id o small) in
    record {
      cancels =
          scancel none
          ∙ asking-once serve (cancel id) (cancel_answer debug) (n, d) (cancel_answer-Stops debug);
      signals =
          scancel (some name)
          ∙ ap
              (λ (r : Result ℤ).
                (run serve (from_result r (λ s. asking (signal_job id s) (signal_answer debug)))
                  (n, d)).1)
              known
          ∙ (unfold from_result in
              asking-once serve (signal_job id signal) (signal_answer debug) (n, d)
                (signal_answer-Stops debug));
      holds =
          asking-once serve (hold id) (control_answer debug (lit "scontrol hold")) (n, d)
            (control_answer-Stops debug (lit "scontrol hold"));
      releases =
          asking-once serve (release id) (control_answer debug (lit "scontrol release")) (n, d)
            (control_answer-Stops debug (lit "scontrol release"));
    }
