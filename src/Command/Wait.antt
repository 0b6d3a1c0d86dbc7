-- ===== src/Command/Wait.antt =====
-- src/command/submit/wait.rs: the loops that ask the daemon until a job runs or is over. Each loop has
-- a number of rounds; without end it `diverges`.
use slotd.Prelude.{
  ℕ, zero, suc, Bool, false, ◌&&◌, List, [], ◌∷◌, ◌++◌, keep, all, length, Option, none, some, Text,
  lit, leb, ltb, ◌==◌, if◌then◌else◌, pos, err, diverges, exit, ◌%◌, ◌^◌,
}
use slotd.Strings.{show_nat}
use slotd.Job.{JobRecord, state_eq, running, completed, is_terminal, state_str, unwrap_or}
use slotd.Store.{Query}
use slotd.Daemon.{Response, list_accounting, get_job_of, jobs, job, error}
use slotd.Command.Client.{Client, done, refuse, returns, asking, chain}

-- What an answer means for a loop.
pub data Round (A : Type 0) : Type 0 where
  leaves : Client A → Round A
  again : Round A

abbrev pub repeats : {A : Type 0} → Round A → Client A → Client A
repeats (leaves c) later = c
repeats again later = later

module _ (debug : Response → Text) where
  unfoldable pub running_round : ℕ → Response → Round JobRecord
  unfolding done refuse show_nat state_str lit
  running_round job_id (job (some found)) =
      if state_eq found.state running
      then leaves (done found)
      else if is_terminal found.state
      then leaves (
          refuse (
            lit "allocation "
            ++ show_nat job_id
            ++ lit " ended before it became runnable: "
            ++ state_str found.state))
      else again
  running_round job_id (job none) =
      leaves (refuse (lit "allocation " ++ show_nat job_id ++ lit " disappeared"))
  running_round job_id (error problem) = leaves (refuse problem)
  running_round job_id other = leaves (
      refuse (
        lit "unexpected response while waiting for allocation "
        ++ show_nat job_id
        ++ lit ": "
        ++ debug other))

  unfoldable pub wait_for_job_running : (rounds : ℕ) → ℕ → Client JobRecord
  unfolding asking running_round
  wait_for_job_running zero job_id = returns diverges
  wait_for_job_running (suc rounds) job_id =
      let later = wait_for_job_running rounds job_id in
      asking (get_job_of job_id) λ answer. repeats (running_round job_id answer) later

  unfoldable pub completion_round : ℕ → Response → Round JobRecord
  unfolding done refuse show_nat lit
  completion_round job_id (job (some found)) =
      if is_terminal found.state then leaves (done found) else again
  completion_round job_id (job none) =
      leaves (refuse (lit "job " ++ show_nat job_id ++ lit " disappeared"))
  completion_round job_id (error problem) = leaves (refuse problem)
  completion_round job_id other = leaves (
      refuse (
        lit "unexpected response while waiting for job "
        ++ show_nat job_id
        ++ lit ": "
        ++ debug other))

  unfoldable pub wait_for_job_completion : (rounds : ℕ) → ℕ → Client JobRecord
  unfolding asking completion_round
  wait_for_job_completion zero job_id = returns diverges
  wait_for_job_completion (suc rounds) job_id =
      let later = wait_for_job_completion rounds job_id in
      asking (get_job_of job_id) λ answer. repeats (completion_round job_id answer) later

  unfoldable pub in_array : ℕ → JobRecord → Bool
  in_array id entry = elim entry.array_job_id [ none ↦ false | some a ↦ a == id ]

  -- `jobs.len() as u32 >= …`, and all of them over.
  unfoldable pub array_over : JobRecord → List JobRecord → Bool
  unfolding all
  array_over head members =
      leb (unwrap_or 0 head.array_task_count) (length members % 2 ^ 32)
      && all (λ entry. is_terminal entry.state) members

  unfoldable pub array_round : JobRecord → Text → Response → Round (List JobRecord)
  unfolding done refuse keep in_array array_over lit
  array_round head id_text (jobs all_jobs) =
      let members = keep (in_array head.id) all_jobs in
      if array_over head members then leaves (done members) else again
  array_round head id_text (error problem) = leaves (refuse problem)
  array_round head id_text other = leaves (
      refuse (
        lit "unexpected response while waiting for array job "
        ++ id_text
        ++ lit ": "
        ++ debug other))

  unfoldable pub every_job : Query
  every_job = record {
    states = none;
    ids = none;
    user_name = none;
    partitions = none;
    start_time = none;
    end_time = none;
  }

  unfoldable pub wait_for_array : (rounds : ℕ) → JobRecord → Text → Client (List JobRecord)
  unfolding asking array_round every_job
  wait_for_array zero head id_text = returns diverges
  wait_for_array (suc rounds) head id_text =
      let later = wait_for_array rounds head id_text in
      asking (list_accounting every_job) λ answer. repeats (array_round head id_text answer) later

  unfoldable pub first_unfinished : List JobRecord → Option JobRecord
  first_unfinished [] = none
  first_unfinished (entry ∷ entries) =
      let rest = first_unfinished entries in
      if state_eq entry.state completed then rest else some entry

  unfoldable pub exit_after : Option JobRecord → Client (Unit {0})
  unfolding done
  exit_after none = done tt
  exit_after (some entry) = returns (err (exit (unwrap_or (pos 1) entry.exit_code)))

  -- The exit code of the first job that did not complete.
  unfoldable pub exit_with : List JobRecord → Client (Unit {0})
  unfolding first_unfinished exit_after
  exit_with entries = exit_after (first_unfinished entries)

  unfoldable pub members_of : (rounds : ℕ) → Text → JobRecord → Client (List JobRecord)
  unfolding in_array wait_for_array done
  members_of rounds id_text head =
      if in_array head.id head && ltb 1 (unwrap_or 1 head.array_task_count)
      then wait_for_array rounds head id_text
      else done (head ∷ [])

  unfoldable pub wait_for_submission_completion : (rounds : ℕ) → ℕ → Client (Unit {0})
  unfolding wait_for_job_completion chain members_of exit_with show_nat
  wait_for_submission_completion rounds job_id =
      chain (wait_for_job_completion rounds job_id)
        λ head. chain (members_of rounds (show_nat job_id) head) exit_with
