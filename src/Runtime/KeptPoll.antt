-- ===== src/Runtime/KeptPoll.antt =====
-- The monitor and the recovery (src/runtime/runner_monitor.rs and recovery.rs) under the rules of
-- Keeping.
use slotd.Prelude.{
  ℕ, Bool, true, false, List, [], ◌∷◌, Option, none, some, ℤ, Result, ok, err, Answer, gives,
  refuses, to_result, if◌then◌else◌,
}
use slotd.Job.{JobRecord}
use slotd.Store.{Store, Outcome}
use slotd.Store.Invariant.{Kept}
use slotd.Runtime.State.{
  World, Daemon, RunningJob, RunningJobs, JobHandle, child, adopted, ExitStatus, lift, ◌>>=◌,
  and_then, pure, ask,
}
use slotd.Runtime.Monitor.{
  completion, poll_child_completion, settle, poll_each, poll, lost, reconcile_each,
  reconcile_adopted, adopted_outcome,
}
use slotd.Runtime.Recovery.{recover_group, recover_job, recover_each, recover}
use slotd.Runtime.Keeping.{
  Keeps, Post, bind-Keeps, bind_with-Keeps, seq-Keeps, pure-Keeps, lift-Keeps, ask-Keeps,
  read-Keeps, get_runner-Keeps, on_runner-Keeps,
}
use slotd.Runtime.Kept.{
  Ends, finish_and_notify-Keeps, note_rss-Keeps, adopt-Keeps, child_outcome-ends,
  adopted_outcome-ends, lost_outcome-ends,
}

completion-Ends : (w : World) (r : RunningJob) (o : Option ExitStatus) → Ends (completion w r o)
unfolding completion
completion-Ends w r none = tt
completion-Ends w r (some s) = child_outcome-ends w r s

-- What a poll of one process finds.
poll_child_completion-Post :
    (w : World) (r : RunningJob) (h : JobHandle) → Post Ends (poll_child_completion w r h)
unfolding poll_child_completion
poll_child_completion-Post w r adopted = tt
poll_child_completion-Post w r child = answered (w.try_wait r.pid)
  where
    answered :
        (a : Answer (Option ExitStatus))
        → Post Ends (elim a [ gives status ↦ ok (completion w r status) | refuses x ↦ err x ])
    answered (gives status) = completion-Ends w r status
    answered (refuses x) = tt

if_lost-Ends :
    (w : World) (r : RunningJob) (b : Bool) → Ends (if b then none else some (adopted_outcome w r))
if_lost-Ends w r true = tt
if_lost-Ends w r false = adopted_outcome-ends w r

lost-Post : (w : World) (r : RunningJob) (h : JobHandle) (d : Daemon) → Post Ends (lost w r h d).0
unfolding lost ◌>>=◌ and_then pure ask
lost-Post w r child d = tt
lost-Post w r adopted d = answered (w.group_alive r.pgid)
  where
    answered :
        (a : Answer Bool)
        → Post Ends
            (and_then
              (to_result a, d)
              (λ alive. pure (if alive then none else some (adopted_outcome w r)))).0
    answered (gives alive) = if_lost-Ends w r alive
    answered (refuses x) = tt

lift-Post :
    {A : Type 0} (Q : A → Type 0) (r : Result A) (d : Daemon) → Post Q r → Post Q (lift r d).0
unfolding lift
lift-Post Q r d h = h

module _ (P : Store → Type 0) (k : Kept P) (w : World) where
  settle-Keeps :
      (id : ℕ) (o : Option Outcome) (finished : List ℕ) → Ends o → Keeps P (settle w id o finished)
  unfolding settle
  settle-Keeps id none finished h = pure-Keeps P _
  settle-Keeps id (some x) finished h =
      seq-Keeps P (finish_and_notify-Keeps P k w id x h) (pure-Keeps P _)

  poll_each-Keeps : (rs : RunningJobs) (finished : List ℕ) → Keeps P (poll_each w rs finished)
  unfolding poll_each
  poll_each-Keeps [] finished = pure-Keeps P _
  poll_each-Keeps ((id, r) ∷ rs) finished = seq-Keeps P (note_rss-Keeps P k w id _) (
      bind_with-Keeps P Ends (lift-Keeps P _)
        (λ d. lift-Post Ends _ d (poll_child_completion-Post w r r.handle))
        (λ o h. bind-Keeps P (settle-Keeps id o finished h) (λ f. poll_each-Keeps rs f)))

  pub poll-Keeps : Keeps P (poll w)
  unfolding poll
  poll-Keeps =
      bind-Keeps P (get_runner-Keeps P)
        λ jobs. bind-Keeps P (poll_each-Keeps jobs []) λ f. on_runner-Keeps P _

  lost-Keeps : (r : RunningJob) (h : JobHandle) → Keeps P (lost w r h)
  unfolding lost
  lost-Keeps r child = pure-Keeps P _
  lost-Keeps r adopted = bind-Keeps P (ask-Keeps P _) (λ b. pure-Keeps P _)

  reconcile_each-Keeps :
      (rs : RunningJobs) (finished : List ℕ) → Keeps P (reconcile_each w rs finished)
  unfolding reconcile_each
  reconcile_each-Keeps [] finished = pure-Keeps P _
  reconcile_each-Keeps ((id, r) ∷ rs) finished =
      bind_with-Keeps P Ends (lost-Keeps r r.handle) (λ d. lost-Post w r r.handle d)
        (λ o h. bind-Keeps P (settle-Keeps id o finished h) (λ f. reconcile_each-Keeps rs f))

  pub reconcile_adopted-Keeps : Keeps P (reconcile_adopted w)
  unfolding reconcile_adopted
  reconcile_adopted-Keeps =
      bind-Keeps P (get_runner-Keeps P)
        λ jobs. bind-Keeps P (reconcile_each-Keeps jobs []) λ f. on_runner-Keeps P _

  recover_group-Keeps : (job : JobRecord) (alive : Bool) → Keeps P (recover_group w job alive)
  unfolding recover_group
  recover_group-Keeps job true = adopt-Keeps P k w job
  recover_group-Keeps job false = finish_and_notify-Keeps P k w job.id _ (lost_outcome-ends w job)

  recover_job-Keeps : (job : JobRecord) (g : Option ℤ) → Keeps P (recover_job w job g)
  unfolding recover_job
  recover_job-Keeps job none = finish_and_notify-Keeps P k w job.id _ (λ e. cc)
  recover_job-Keeps job (some pgid) =
      bind-Keeps P (ask-Keeps P _) (λ alive. recover_group-Keeps job alive)

  recover_each-Keeps : (jobs : List JobRecord) → Keeps P (recover_each w jobs)
  unfolding recover_each
  recover_each-Keeps [] = pure-Keeps P _
  recover_each-Keeps (job ∷ jobs) = seq-Keeps P (recover_job-Keeps job _) (recover_each-Keeps jobs)

  pub recover-Keeps : Keeps P (recover w)
  unfolding recover
  recover-Keeps = bind-Keeps P (read-Keeps P _) (λ jobs. recover_each-Keeps jobs)
