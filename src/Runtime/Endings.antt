-- ===== src/Runtime/Endings.antt =====
-- How a job that ended is classified: src/runtime/terminal.rs, `recovered_terminal_state` of
-- src/runtime/runner_support.rs, and `notify_job` of src/runtime/notify.rs.
use slotd.Prelude.{
  Bool, false, ◌||◌, Option, none, some, Text, lit, if◌then◌else◌, ℤ, pos, eqb_ℤ, not,
}
use slotd.Strings.{trim, parse_i32}
use slotd.Job.{JobRecord, JobState, completed, failed, out_of_memory, is_terminal}
use slotd.Store.{is_top_level}
use slotd.Runtime.State.{World, M, ask, ◌>>=◌, ◌>>◌, pure, read, emit, notified}

-- `cgroup_oomed` of a job that may have no cgroup.
unfoldable pub cgroup_oomed : World → Option Text → Bool
cgroup_oomed w none = false
cgroup_oomed w (some path) = w.oomed path

unfoldable pub exit_case : Option ℤ → Option ℤ → Text → Text → Text → Text → JobState × Text
exit_case exit_code (some term_signal) success signal_reason failure unknown =
    (failed, signal_reason)
exit_case (some code) none success signal_reason failure unknown =
    if eqb_ℤ code (pos 0) then (completed, success) else (failed, failure)
exit_case none none success signal_reason failure unknown = (failed, unknown)

unfoldable pub terminal_state_with_reasons :
    Option ℤ → Option ℤ → Bool → Text → Text → Text → Text → JobState × Text
unfolding exit_case
terminal_state_with_reasons exit_code term_signal oom_killed success signal_reason failure unknown =
    if oom_killed
    then (out_of_memory, lit "OutOfMemory")
    else exit_case exit_code term_signal success signal_reason failure unknown

-- What the file `exit_status` says of a job whose process is gone.
unfoldable pub status_file_code : World → Option Text → Option ℤ
status_file_code w none = none
status_file_code w (some path) = elim (w.read_status path) [
  | none ↦ none
  | some value ↦ parse_i32 (trim value)
]

unfoldable pub code_case : Option ℤ → JobState × Option ℤ × Text
code_case none = (failed, none, lit "LostAfterRestart")
code_case (some code) =
    if eqb_ℤ code (pos 0)
    then (completed, some code, lit "Completed")
    else (failed, some code, lit "NonZeroExitCode")

unfoldable pub recovered_terminal_state :
    World → Option Text → Option Text → JobState × Option ℤ × Text
unfolding code_case cgroup_oomed
recovered_terminal_state w status_path cgroup_path =
    if cgroup_oomed w cgroup_path
    then (out_of_memory, none, lit "OutOfMemory")
    else code_case (status_file_code w status_path)

unfoldable pub notify_with : World → Option Text → JobRecord → M (Unit {0})
notify_with w none job = pure tt
notify_with w (some command) job = do ask (w.run_notify command job); emit (notified job.id)

unfoldable pub notify_job : World → JobRecord → M (Unit {0})
unfolding notify_with
notify_job w job =
    if not (is_top_level job) || not (is_terminal job.state)
    then pure tt
    else (do command ← read (λ s. s.config.notify_command); notify_with w command job)
