-- ===== src/Command/Control.antt =====
-- src/command/handlers/scancel.rs and scontrol: the requests that act on one job.
use slotd.Prelude.{
  ℕ, List, [], ◌∷◌, ◌++◌, Option, none, some, Text, lit, if◌then◌else◌, ℤ, Result, ok, err, message,
  ok_or, ◌>>=◌,
}
use slotd.Strings.{
  show_nat, split_once, to_ascii_lowercase, text_case, eq_ignore_ascii_case, parse_i32,
}
use slotd.Config.{AppConfig}
use slotd.Job.{JobRecord}
use slotd.Daemon.{
  Request, Response, submitted, was_cancelled, jobs, job, error, cancel, signal_job, hold, release,
  update_job_of, get_job_of, list_steps_of,
}
use slotd.Submit.Limits.{parse_time_limit_secs}
use slotd.Util.Signals.{parse_signal_name}
use slotd.Command.Client.{Client, done, refuse, from_result, asking, chain}
use slotd.Command.Arguments.{ScancelArgs, ScontrolArgs, validate_constraint}
use slotd.Command.Helpers.{resolve_job_reference, load_job}
use slotd.Command.JobText.{print_scontrol_job}

-- The four fields that `scontrol update` may set.
pub record Changes : Type 0 where
  pub name : Option Text
  pub partition : Option Text
  pub time_limit_secs : Option ℕ
  pub priority : Option ℤ

pub data ChangeKey : Type 0 where
  job_name_key partition_key time_limit_key priority_key : ChangeKey

abbrev change_keys : List (Text × ChangeKey)
change_keys =
    (lit "jobname", job_name_key)
    ∷ (lit "name", job_name_key)
    ∷ (lit "partition", partition_key)
    ∷ (lit "timelimit", time_limit_key)
    ∷ (lit "time", time_limit_key)
    ∷ (lit "priority", priority_key)
    ∷ []

unfoldable pub set_change : ChangeKey → Text → Changes → Result Changes
unfolding parse_time_limit_secs parse_i32 lit
set_change job_name_key value c = ok (record c { name = some value })
set_change partition_key value c = ok (record c { partition = some value })
set_change time_limit_key value c =
    parse_time_limit_secs value >>= λ secs. ok (record c { time_limit_secs = some secs })
set_change priority_key value c =
    ok_or (parse_i32 value) (message (lit "invalid priority: " ++ value)) >>= λ p.
    ok (record c { priority = some p })

unfoldable pub apply_update : Text → Changes → Result Changes
unfolding split_once to_ascii_lowercase text_case set_change lit
apply_update update c = elim (split_once b'=' update) [
  | none ↦ err (message (lit "invalid update expression: " ++ update))
  | some (key, value) ↦ elim (text_case change_keys (to_ascii_lowercase key)) [
    | some k ↦ set_change k value c
    | none ↦ err (message (lit "unsupported update key: " ++ to_ascii_lowercase key))
  ]
]

unfoldable pub apply_updates : List Text → Changes → Result Changes
unfolding apply_update
apply_updates [] c = ok c
apply_updates (update ∷ updates) c = apply_update update c >>= apply_updates updates

unfoldable pub no_changes : Changes
no_changes = record { name = none; partition = none; time_limit_secs = none; priority = none }

module _ (debug : Response → Text) where
  unfoldable pub signal_answer : Response → Client (List Text)
  unfolding done refuse show_nat lit
  signal_answer (submitted job_id) = done ((lit "Signaled job " ++ show_nat job_id) ∷ [])
  signal_answer (error problem) = refuse problem
  signal_answer other = refuse (lit "unexpected response to scancel signal: " ++ debug other)

  unfoldable pub cancel_answer : Response → Client (List Text)
  unfolding done refuse show_nat lit
  cancel_answer (was_cancelled job_id) = done ((lit "Cancelled job " ++ show_nat job_id) ∷ [])
  cancel_answer (error problem) = refuse problem
  cancel_answer other = refuse (lit "unexpected response to scancel: " ++ debug other)

  unfoldable pub scancel_job : Option Text → ℕ → Client (List Text)
  unfolding from_result parse_signal_name asking signal_answer cancel_answer
  scancel_job (some name) job_id =
      from_result (parse_signal_name name) λ signal. asking (signal_job job_id signal) signal_answer
  scancel_job none job_id = asking (cancel job_id) cancel_answer

  unfoldable pub run_scancel : ScancelArgs → Client (List Text)
  unfolding chain resolve_job_reference scancel_job
  run_scancel args = chain (resolve_job_reference debug args.job_id) (scancel_job args.signal)

  unfoldable pub control_answer : Text → Response → Client (List Text)
  unfolding done refuse lit
  control_answer action (submitted job_id) = done []
  control_answer action (error problem) = refuse problem
  control_answer action other =
      refuse (lit "unexpected response to " ++ action ++ lit ": " ++ debug other)

  unfoldable pub submit_control_request : Request → Text → Client (List Text)
  unfolding asking control_answer
  submit_control_request request action = asking request (control_answer action)

  unfoldable pub steps_answer : AppConfig → JobRecord → Response → Client (List Text)
  unfolding done refuse print_scontrol_job lit
  steps_answer config found (jobs steps) = done (print_scontrol_job config found steps)
  steps_answer config found (error problem) = refuse problem
  steps_answer config found other =
      refuse (lit "unexpected response to scontrol step listing: " ++ debug other)

  unfoldable pub show_answer : AppConfig → ℕ → Response → Client (List Text)
  unfolding refuse asking steps_answer show_nat lit
  show_answer config job_id (job (some found)) =
      asking (list_steps_of found.id) (steps_answer config found)
  show_answer config job_id (job none) = refuse (lit "job " ++ show_nat job_id ++ lit " not found")
  show_answer config job_id (error problem) = refuse problem
  show_answer config job_id other = refuse (lit "unexpected response to scontrol: " ++ debug other)

  unfoldable pub run_show_job : AppConfig → ℕ → Client (List Text)
  unfolding asking show_answer
  run_show_job config job_id = asking (get_job_of job_id) (show_answer config job_id)

  unfoldable pub constraint_of_job : AppConfig → Text → JobRecord → Client (Unit {0})
  unfolding from_result validate_constraint done
  constraint_of_job config partition found = elim found.constraint [
    | none ↦ done tt
    | some constraint ↦ from_result (validate_constraint config constraint partition) done
  ]

  -- A new partition has to meet the job's constraint.
  unfoldable pub check_partition : AppConfig → ℕ → Option Text → Client (Unit {0})
  unfolding chain load_job constraint_of_job done
  check_partition config job_id none = done tt
  check_partition config job_id (some partition) =
      chain (load_job debug job_id) (constraint_of_job config partition)

  unfoldable pub run_update_job : AppConfig → ScontrolArgs → Client (List Text)
  unfolding from_result apply_updates no_changes check_partition chain asking control_answer lit
  run_update_job config args = from_result (apply_updates args.updates no_changes) λ c.
      chain (check_partition config args.job_id c.partition) λ checked.
        asking (update_job_of args.job_id c.name c.partition c.time_limit_secs c.priority)
          (control_answer (lit "scontrol update"))

  unfoldable pub run_scontrol : AppConfig → ScontrolArgs → Client (List Text)
  unfolding eq_ignore_ascii_case submit_control_request run_update_job run_show_job refuse lit
  run_scontrol config args =
      if eq_ignore_ascii_case args.entity (lit "job")
      then (if eq_ignore_ascii_case args.action (lit "hold")
          then submit_control_request (hold args.job_id) (lit "scontrol hold")
          else if eq_ignore_ascii_case args.action (lit "release")
          then submit_control_request (release args.job_id) (lit "scontrol release")
          else if eq_ignore_ascii_case args.action (lit "update")
          then run_update_job config args
          else if eq_ignore_ascii_case args.action (lit "show")
          then run_show_job config args.job_id
          else refuse (
              lit
                "supported syntax: scontrol show|hold|release|update job <job_id>; update keys: JobName, Partition, TimeLimit, Priority"))
      else refuse (lit "supported syntax: scontrol <action> job <job_id>")
