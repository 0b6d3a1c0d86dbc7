-- ===== src/Runtime/Kept.antt =====
-- The end, the time limit, the cancellation and the adoption of jobs (src/runtime/runner_control.rs
-- and runner_lifecycle.rs) under the rules of Keeping.
use slotd.Prelude.{
  ℕ, ◌≢◌, Bool, true, false, List, [], ◌∷◌, Option, none, some, Text, ℤ, pos, arith, if◌then◌else◌,
  Bool-cases, inl, inr,
}
use slotd.Job.{
  JobRecord, JobState, running, completing, timeout, cancelled, out_of_memory, unwrap_or,
}
use slotd.Store.{Store, Outcome}
use slotd.Store.Invariant.{
  Kept, mark_finished-Kept, mark_state-Kept, update_max_rss-Kept, cancel_pending_job-Kept,
}
use slotd.Runtime.State.{World, RunningJob, JobHandle, child, adopted, ExitStatus}
use slotd.Runtime.Endings.{
  notify_job, notify_with, terminal_state_with_reasons, exit_case, code_case,
  recovered_terminal_state, cgroup_oomed, status_file_code,
}
use slotd.Runtime.Runner.{adopt, adopt_group, or_pid}
use slotd.Runtime.Control.{
  finish_and_notify, end_child, kill_group, end_process, terminate_running_job, terminate_found,
  terminate_tracked_job, end_all, warn_one, warn_all, enforce_timeouts, cancel_job, cancel_unless,
  cancel_tracked, signal_running_job, signal_found,
}
use slotd.Runtime.Monitor.{child_outcome, adopted_outcome, note_rss}
use slotd.Runtime.Recovery.{lost_outcome}
use slotd.Runtime.Keeping.{
  Keeps, bind-Keeps, seq-Keeps, if-Keeps, pure-Keeps, fail-Keeps, ask-Keeps, read-Keeps,
  get_runner-Keeps, on_runner-Keeps, emit-Keeps, on_store-Keeps, store_call-Keeps, store_run-Keeps,
}

-- The outcome, if there is one, is no `running`.
abbrev pub Ends : Option Outcome → Type 0
Ends none = Unit {0}
Ends (some x) = x.state ≢ running

exit_case-ends : (code sig : Option ℤ) (a b c e : Text) → (exit_case code sig a b c e).0 ≢ running
unfolding exit_case
exit_case-ends code (some sig) a b c e = λ h. cc
exit_case-ends (some code) none a b c e = ground arith
exit_case-ends none none a b c e = λ h. cc

code_case-ends : (code : Option ℤ) → (code_case code).0 ≢ running
unfolding code_case
code_case-ends none = λ h. cc
code_case-ends (some code) = ground arith

oomed-ends : (b : Bool) (st : JobState) → st ≢ running → (if b then out_of_memory else st) ≢ running
oomed-ends true st h = λ e. cc
oomed-ends false st h = h

pub child_outcome-ends :
    (w : World) (r : RunningJob) (s : ExitStatus) → (child_outcome w r s).state ≢ running
unfolding child_outcome terminal_state_with_reasons
child_outcome-ends w r s = elim (Bool-cases (cgroup_oomed w r.cgroup_path)) [
  | inl e ↦ rw e (λ h. cc)
  | inr e ↦ rw e (exit_case-ends s.code s.signal _ _ _ _)
]

pub adopted_outcome-ends : (w : World) (r : RunningJob) → (adopted_outcome w r).state ≢ running
unfolding adopted_outcome recovered_terminal_state
adopted_outcome-ends w r = elim (Bool-cases (cgroup_oomed w r.cgroup_path)) [
  | inl e ↦ rw e (λ h. cc)
  | inr e ↦ rw e (code_case-ends (status_file_code w r.status_path))
]

pub lost_outcome-ends : (w : World) (job : JobRecord) → (lost_outcome w job).state ≢ running
unfolding lost_outcome
lost_outcome-ends w job = code_case-ends _

module _ (P : Store → Type 0) (k : Kept P) (w : World) where
  notify_with-Keeps : (o : Option Text) (job : JobRecord) → Keeps P (notify_with w o job)
  unfolding notify_with
  notify_with-Keeps none job = pure-Keeps P _
  notify_with-Keeps (some c) job = seq-Keeps P (ask-Keeps P _) (emit-Keeps P _)

  pub notify_job-Keeps : (job : JobRecord) → Keeps P (notify_job w job)
  unfolding notify_job
  notify_job-Keeps job =
      if-Keeps P _ (pure-Keeps P _) (bind-Keeps P (read-Keeps P _) (λ c. notify_with-Keeps c job))

  pub finish_and_notify-Keeps :
      (id : ℕ) (o : Outcome) → o.state ≢ running → Keeps P (finish_and_notify w id o)
  unfolding finish_and_notify
  finish_and_notify-Keeps id o h =
      bind-Keeps P (store_call-Keeps P _ (λ s v. mark_finished-Kept P k id o w.now s h v))
        (λ job. if-Keeps P _ (notify_job-Keeps job) (pure-Keeps P _))

  end_child-Keeps : (r : RunningJob) (o : Option ExitStatus) → Keeps P (end_child w r o)
  unfolding end_child
  end_child-Keeps r (some status) = pure-Keeps P _
  end_child-Keeps r none =
      seq-Keeps P (emit-Keeps P _) (bind-Keeps P (ask-Keeps P _) (λ a. pure-Keeps P _))

  kill_group-Keeps : (r : RunningJob) (b : Bool) → Keeps P (kill_group w r b)
  unfolding kill_group
  kill_group-Keeps r true = seq-Keeps P (emit-Keeps P _) (ask-Keeps P _)
  kill_group-Keeps r false = pure-Keeps P _

  end_process-Keeps : (r : RunningJob) (h : JobHandle) → Keeps P (end_process w r h)
  unfolding end_process
  end_process-Keeps r child = bind-Keeps P (ask-Keeps P _) (λ a. end_child-Keeps r a)
  end_process-Keeps r adopted =
      bind-Keeps P (ask-Keeps P _) (λ b. seq-Keeps P (kill_group-Keeps r b) (pure-Keeps P _))

  terminate_running_job-Keeps :
      (id : ℕ) (r : RunningJob) (st : JobState) (reason : Text)
      → st ≢ running
      → Keeps P (terminate_running_job w id r st reason)
  unfolding terminate_running_job
  terminate_running_job-Keeps id r st reason h =
      seq-Keeps P
        (on_store-Keeps P _ (λ s v. mark_state-Kept P k id completing (some reason) s (λ e. cc) v))
        (seq-Keeps P (emit-Keeps P _) (
          bind-Keeps P (end_process-Keeps r r.handle) (λ ends.
            finish_and_notify-Keeps id _ (oomed-ends (cgroup_oomed w r.cgroup_path) st h))))

  terminate_found-Keeps :
      (id : ℕ) (st : JobState) (reason : Text) (o : Option RunningJob)
      → st ≢ running
      → Keeps P (terminate_found w id st reason o)
  unfolding terminate_found
  terminate_found-Keeps id st reason none h = pure-Keeps P _
  terminate_found-Keeps id st reason (some r) h =
      seq-Keeps P (on_runner-Keeps P _) (terminate_running_job-Keeps id r st reason h)

  terminate_tracked_job-Keeps :
      (id : ℕ) (st : JobState) (reason : Text)
      → st ≢ running
      → Keeps P (terminate_tracked_job w id st reason)
  unfolding terminate_tracked_job
  terminate_tracked_job-Keeps id st reason h =
      bind-Keeps P (get_runner-Keeps P) (λ js. terminate_found-Keeps id st reason _ h)

  end_all-Keeps : (ids : List ℕ) → Keeps P (end_all w ids)
  unfolding end_all
  end_all-Keeps [] = pure-Keeps P _
  end_all-Keeps (id ∷ ids) =
      seq-Keeps P (terminate_tracked_job-Keeps id timeout _ (λ e. cc)) (end_all-Keeps ids)

  signal_found-Keeps : (sig : ℤ) (o : Option RunningJob) → Keeps P (signal_found w sig o)
  unfolding signal_found
  signal_found-Keeps sig none = pure-Keeps P _
  signal_found-Keeps sig (some r) =
      if-Keeps P _ (seq-Keeps P (emit-Keeps P _) (pure-Keeps P _)) (fail-Keeps P _)

  pub signal_running_job-Keeps : (id : ℕ) (sig : ℤ) → Keeps P (signal_running_job w id sig)
  unfolding signal_running_job
  signal_running_job-Keeps id sig =
      bind-Keeps P (get_runner-Keeps P) (λ js. signal_found-Keeps sig _)

  warn_one-Keeps : (id : ℕ) (o : Option ℤ) → Keeps P (warn_one w id o)
  unfolding warn_one
  warn_one-Keeps id none = pure-Keeps P _
  warn_one-Keeps id (some sig) =
      bind-Keeps P (signal_running_job-Keeps id sig) (λ b. on_runner-Keeps P _)

  warn_all-Keeps : (ids : List ℕ) → Keeps P (warn_all w ids)
  unfolding warn_all
  warn_all-Keeps [] = pure-Keeps P _
  warn_all-Keeps (id ∷ ids) = bind-Keeps P (get_runner-Keeps P) λ js.
      bind-Keeps P (read-Keeps P _) λ due. seq-Keeps P (warn_one-Keeps id due) (warn_all-Keeps ids)

  pub enforce_timeouts-Keeps : Keeps P (enforce_timeouts w)
  unfolding enforce_timeouts
  enforce_timeouts-Keeps = bind-Keeps P (get_runner-Keeps P) λ js.
      bind-Keeps P (read-Keeps P _) λ late.
        seq-Keeps P (end_all-Keeps late)
          (bind-Keeps P (get_runner-Keeps P) (λ rest. warn_all-Keeps _))

  cancel_tracked-Keeps : (id : ℕ) (o : Option RunningJob) → Keeps P (cancel_tracked w id o)
  unfolding cancel_tracked
  cancel_tracked-Keeps id none = pure-Keeps P _
  cancel_tracked-Keeps id (some r) =
      seq-Keeps P (terminate_tracked_job-Keeps id cancelled _ (λ e. cc)) (pure-Keeps P _)

  cancel_unless-Keeps : (id : ℕ) (b : Bool) → Keeps P (cancel_unless w id b)
  unfolding cancel_unless
  cancel_unless-Keeps id true = pure-Keeps P _
  cancel_unless-Keeps id false = bind-Keeps P (get_runner-Keeps P) (λ js. cancel_tracked-Keeps id _)

  pub cancel_job-Keeps : (id : ℕ) → Keeps P (cancel_job w id)
  unfolding cancel_job
  cancel_job-Keeps id =
      bind-Keeps P (store_run-Keeps P _ (λ s v. cancel_pending_job-Kept P k id w.now s v))
        (λ b. cancel_unless-Keeps id b)

  adopt_group-Keeps : (job : JobRecord) (pgid : ℤ) → Keeps P (adopt_group job pgid)
  unfolding adopt_group
  adopt_group-Keeps job pgid =
      if-Keeps P _ (pure-Keeps P _) (bind-Keeps P (read-Keeps P _) (λ r. on_runner-Keeps P _))

  pub adopt-Keeps : (job : JobRecord) → Keeps P (adopt job)
  unfolding adopt
  adopt-Keeps job = adopt_group-Keeps job (unwrap_or (pos 0) (or_pid job.pgid job.pid))

  pub note_rss-Keeps : (id : ℕ) (o : Option ℕ) → Keeps P (note_rss id o)
  unfolding note_rss
  note_rss-Keeps id none = pure-Keeps P _
  note_rss-Keeps id (some kb) = on_store-Keeps P _ (λ s v. update_max_rss-Kept P k id kb s v)
