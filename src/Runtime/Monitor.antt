-- ===== src/Runtime/Monitor.antt =====
-- src/runtime/runner_monitor.rs: finding the jobs that have ended.
use slotd.Prelude.{
  ℕ, List, [], ◌∷◌, ◌++◌, Option, none, some, lit, if◌then◌else◌, pos, ltb_ℤ, Result, ok, err,
  gives, refuses,
}
use slotd.Store.{update_max_rss, Outcome}
use slotd.Runtime.State.{
  World, RunningJob, RunningJobs, JobHandle, child, adopted, ExitStatus, remove_running, M, ask,
  ◌>>=◌, ◌>>◌, pure, lift, on_store, on_runner, get_runner,
}
use slotd.Runtime.Endings.{cgroup_oomed, terminal_state_with_reasons, recovered_terminal_state}
use slotd.Runtime.Control.{finish_and_notify}

unfoldable pub forget_finished_jobs : List ℕ → RunningJobs → RunningJobs
unfolding remove_running
forget_finished_jobs [] jobs = jobs
forget_finished_jobs (id ∷ ids) jobs = forget_finished_jobs ids (remove_running id jobs)

-- The outcome of a child that has ended.
unfoldable pub child_outcome : World → RunningJob → ExitStatus → Outcome
child_outcome w running status =
    let (state, reason) =
      terminal_state_with_reasons status.code status.signal (cgroup_oomed w running.cgroup_path)
        (lit "Completed") (lit "Signal") (lit "NonZeroExitCode") (lit "UnknownFailure") in
    record {
      state = state;
      exit_code = status.code;
      term_signal = status.signal;
      state_reason = some reason;
    }

unfoldable pub adopted_outcome : World → RunningJob → Outcome
adopted_outcome w running =
    let (state, code, reason) =
      recovered_terminal_state w running.status_path running.cgroup_path in
    record { state = state; exit_code = code; term_signal = none; state_reason = some reason }

unfoldable pub completion : World → RunningJob → Option ExitStatus → Option Outcome
unfolding child_outcome
completion w running none = none
completion w running (some status) = some (child_outcome w running status)

unfoldable pub poll_child_completion : World → RunningJob → JobHandle → Result (Option Outcome)
unfolding completion
poll_child_completion w running adopted = ok none
poll_child_completion w running child = elim (w.try_wait running.pid) [
  | gives status ↦ ok (completion w running status)
  | refuses e ↦ err e
]

unfoldable pub rss_of : World → RunningJob → Option ℕ
rss_of w running = if ltb_ℤ (pos 0) running.pid then w.rss_kb running.pid else none

unfoldable pub note_rss : ℕ → Option ℕ → M (Unit {0})
note_rss id none = pure tt
note_rss id (some kb) = on_store (update_max_rss id kb)

-- Ends the job if there is an outcome, and adds its id to those to forget.
unfoldable pub settle : World → ℕ → Option Outcome → List ℕ → M (List ℕ)
settle w id none finished = pure finished
settle w id (some outcome) finished = do finish_and_notify w id outcome; pure (finished ++ id ∷ [])

unfoldable pub poll_each : World → RunningJobs → List ℕ → M (List ℕ)
unfolding settle note_rss rss_of
poll_each w [] finished = pure finished
poll_each w ((id, running) ∷ rest) finished = do
  note_rss id (rss_of w running)
  outcome ← lift (poll_child_completion w running running.handle)
  finished' ← settle w id outcome finished
  poll_each w rest finished'

unfoldable pub poll : World → M (Unit {0})
unfolding poll_each forget_finished_jobs
poll w = do
  jobs ← get_runner
  finished ← poll_each w jobs []
  on_runner (forget_finished_jobs finished)

-- The outcome of an adopted job whose process group is gone.
unfoldable pub lost : World → RunningJob → JobHandle → M (Option Outcome)
unfolding adopted_outcome
lost w running child = pure none
lost w running adopted = do
  alive ← ask (w.group_alive running.pgid)
  pure (if alive then none else some (adopted_outcome w running))

unfoldable pub reconcile_each : World → RunningJobs → List ℕ → M (List ℕ)
unfolding settle lost
reconcile_each w [] finished = pure finished
reconcile_each w ((id, running) ∷ rest) finished = do
  outcome ← lost w running running.handle
  finished' ← settle w id outcome finished
  reconcile_each w rest finished'

unfoldable pub reconcile_adopted : World → M (Unit {0})
unfolding reconcile_each forget_finished_jobs
reconcile_adopted w = do
  jobs ← get_runner
  finished ← reconcile_each w jobs []
  on_runner (forget_finished_jobs finished)
