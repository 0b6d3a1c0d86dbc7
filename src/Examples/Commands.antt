-- ===== src/Examples/Commands.antt =====
-- Dates, environments, tables and commands.
use slotd.Prelude.{
  any, lt→ltb, ltb, ◌<◌, ◌+ℤ◌, ◌*ℤ◌, ◌-ℤ◌, ℕ, pos, ◌≡◌, refl, true, false, [], ◌∷◌, List, Option,
  none, some, lit, arith, ok, map, Text, if◌then◌else◌,
}
use slotd.Submit.Limits.{split_digits, scale_unit}
use slotd.Strings.{parse_u64, to_ascii_uppercase, trim, is_empty, text_eq, join}
use slotd.Job.{JobRecord, running, state_eq, parsed}
use slotd.Config.{is_gpu_partition}
use slotd.Store.{new_row, no_array}
use slotd.Runtime.{World}
use slotd.Util.{Moment, datetime_to_epoch, civil_from_epoch, days_in_month}
use slotd.Util.Epoch.{civil_from_epoch-datetime_to_epoch}
use slotd.Util.Env.{Env, env_value, upsert_env_pair, resolve_export_env, export_entries}
use slotd.Util.EnvMeaning.{last_word, value_after, export_entries-last_word}
use slotd.Command.Wait.{wait_for_job_running}
use slotd.Command.Waiting.{StillWaits, telling, wait_for_job_running-telling}
use slotd.Command.Resolving.{IsPossible, resolve-IsPossible}
use slotd.Util.EnvLaws.{IsResolved, resolve_export_env-IsResolved, env_value-upsert_env_pair}
use slotd.Format.Squeue
use slotd.Format.Sacct
use slotd.Format.Sinfo
use slotd.Format.Lines.{IsTable}
use slotd.Format.Listings.{print_squeue_jobs-IsTable, print_sacct_jobs-IsTable}
use slotd.Format.Names.{parse_sacct_fields-header, parse_sinfo_fields-header}
use slotd.Command.Quoting.{shell_join}
use slotd.Command.ShellWords.{shell_words, shell_words-shell_join}
use slotd.Command.Sorting.{sort_squeue_jobs-Sorted, Sorted}
use slotd.Command.Client.{run}
use slotd.Command.Session.{handle_stream}
use slotd.Command.Arguments.{
  ResourceArgs, ResolvedResourceArgs, resolve, SacctArgs, SinfoArgs, SqueueArgs,
}
use slotd.Command.Listing.{run_sacct, run_sinfo, run_squeue}
use slotd.Command.Control.{run_show_job}
use slotd.Command.Silent.{listing_commands_silent}
use slotd.Examples.Data.{machine, world, request, first_daemon}

abbrev leap_day : Moment
leap_day = record {
  date = record { year = pos 2024; month = 2; day = 29 };
  hour = 12;
  minute = 30;
  second = 45;
}

leap_day_seconds : datetime_to_epoch (pos 2024) 2 29 12 30 45 ≡ ok (pos 1709209845)
unfolding datetime_to_epoch days_in_month ◌+ℤ◌ ◌*ℤ◌ ◌-ℤ◌
leap_day_seconds = refl

civil_from_epoch-datetime_to_epoch_example : civil_from_epoch (pos 1709209845) ≡ leap_day
civil_from_epoch-datetime_to_epoch_example =
    civil_from_epoch-datetime_to_epoch (pos 2024) 2 29 12 30 45 (pos 1709209845) (omega arith)
      leap_day_seconds

abbrev variables : Env
variables = (lit "HOME", lit "/home/ana") ∷ []

abbrev exported : Env
exported = (lit "FOO", lit "1") ∷ (lit "HOME", lit "/home/ana") ∷ []

exported_found : resolve_export_env variables (some (lit "HOME,FOO=1")) none ≡ ok exported
unfolding resolve_export_env lit
exported_found = refl

resolve_export_env-IsResolved_example : IsResolved variables (some (lit "HOME,FOO=1")) none exported
resolve_export_env-IsResolved_example =
    resolve_export_env-IsResolved variables (some (lit "HOME,FOO=1")) none exported exported_found

env_value-upsert_env_pair_example :
    env_value (upsert_env_pair variables (lit "HOME") (lit "/tmp")) (lit "HOME") ≡ (
      if text_eq (lit "HOME") (lit "HOME")
      then some (lit "/tmp")
      else env_value variables (lit "HOME"))
env_value-upsert_env_pair_example =
    env_value-upsert_env_pair variables (lit "HOME") (lit "/tmp") (lit "HOME")

abbrev waiting_job : JobRecord
waiting_job = new_row 1 request no_array (lit "train") (pos 900)

abbrev later_job : JobRecord
later_job = new_row 2 request no_array (lit "test") (pos 950)

abbrev squeue_columns : List Squeue.SqueueField
squeue_columns = Squeue.SqueueField.job_id ∷ Squeue.SqueueField.start_time ∷ []

abbrev unknown_start : ℕ → Option Text
unknown_start id = none

print_squeue_jobs-IsTable_example :
    IsTable
      (Squeue.columns_of squeue_columns)
      1
      false
      (Squeue.print_squeue_jobs (lit "node") (pos 1000) (waiting_job ∷ []) squeue_columns false)
    × IsTable (Squeue.columns_of squeue_columns) 1 false (
        Squeue.print_squeue_jobs_with_options
          (lit "node")
          (pos 1000)
          (waiting_job ∷ [])
          squeue_columns
          false
          true)
    × IsTable (Squeue.columns_of squeue_columns) 1 false (
        Squeue.print_squeue_jobs_with_start_times
          (lit "node")
          (pos 1000)
          (waiting_job ∷ [])
          squeue_columns
          unknown_start
          false
          true)
print_squeue_jobs-IsTable_example =
    print_squeue_jobs-IsTable (lit "node") (pos 1000) (waiting_job ∷ []) squeue_columns
      unknown_start false true

abbrev sacct_columns : List Sacct.SacctField
sacct_columns = Sacct.SacctField.job_id ∷ Sacct.SacctField.exit_code ∷ []

abbrev sinfo_columns : List Sinfo.SinfoField
sinfo_columns = Sinfo.SinfoField.partition ∷ Sinfo.SinfoField.cpus_load ∷ []

print_sacct_jobs-IsTable_example :
    IsTable
      (Sacct.columns_of sacct_columns)
      1
      true
      (Sacct.print_sacct_jobs machine (pos 1000) (waiting_job ∷ []) sacct_columns true)
    × IsTable
        (Sinfo.columns_of sinfo_columns)
        0
        true
        (Sinfo.print_sinfo (lit "cpu") [] sinfo_columns true)
    × IsTable
        (Sinfo.columns_of sinfo_columns)
        0
        true
        (Sinfo.print_sinfo_nodes [] sinfo_columns true)
print_sacct_jobs-IsTable_example =
    print_sacct_jobs-IsTable machine (pos 1000) (waiting_job ∷ []) sacct_columns (lit "cpu") [] []
      sinfo_columns true

parse_sacct_fields-header_example :
    Sacct.parse_sacct_fields (some (join (lit ",") (map Sacct.header sacct_columns)))
    ≡ parsed sacct_columns
parse_sacct_fields-header_example =
    parse_sacct_fields-header Sacct.SacctField.job_id (Sacct.SacctField.exit_code ∷ [])

parse_sinfo_fields-header_example :
    Sinfo.parse_sinfo_fields (some (join (lit ",") (map Sinfo.header sinfo_columns))) true
    ≡ parsed sinfo_columns
parse_sinfo_fields-header_example =
    parse_sinfo_fields-header Sinfo.SinfoField.partition (Sinfo.SinfoField.cpus_load ∷ []) true

abbrev spoken : List Text
spoken = lit "echo" ∷ lit "it's here" ∷ [] ∷ []

shell_words-shell_join_example : shell_words (shell_join spoken) ≡ some spoken
shell_words-shell_join_example = shell_words-shell_join spoken

sort_squeue_jobs-Sorted_example : Sorted (waiting_job ∷ later_job ∷ [])
sort_squeue_jobs-Sorted_example = sort_squeue_jobs-Sorted (waiting_job ∷ later_job ∷ [])

abbrev sacct_args : SacctArgs
sacct_args = record {
  jobs = none;
  states = some (lit "pd" ∷ []);
  start_time = none;
  end_time = none;
  user = none;
  partitions = none;
  format = none;
  parsable2 = true;
  noheader = false;
}

abbrev sinfo_args : SinfoArgs
sinfo_args = record { partitions = none; node = true; long = true; format = none; noheader = false }

abbrev squeue_args : SqueueArgs
squeue_args = record {
  all = true;
  states = none;
  jobs = none;
  user = none;
  partitions = none;
  format = none;
  sort = some (lit "-time");
  long = false;
  start = true;
  array = false;
  noheader = false;
}

abbrev no_text : {A : Type 0} → A → Text
no_text a = []

abbrev worlds : ℕ → World
worlds n = world

listing_commands_silent_example :
    ((run
        (handle_stream no_text worlds)
        (run_sacct no_text machine (pos 1000) sacct_args)
        (0, first_daemon)).1.1
      ≡ first_daemon)
    × ((run
          (handle_stream no_text worlds)
          (run_sinfo no_text machine sinfo_args)
          (0, first_daemon)).1.1
        ≡ first_daemon)
    × ((run
          (handle_stream no_text worlds)
          (run_squeue no_text machine (pos 1000) squeue_args)
          (0, first_daemon)).1.1
        ≡ first_daemon)
    × ((run (handle_stream no_text worlds) (run_show_job no_text machine 1) (0, first_daemon)).1.1
        ≡ first_daemon)
listing_commands_silent_example =
    listing_commands_silent no_text no_text worlds machine (pos 1000) sacct_args sinfo_args
      squeue_args 1 0 first_daemon

abbrev running_job : JobRecord
running_job = record waiting_job { state = running }

-- The job waits in the first two answers.
abbrev rows : ℕ → JobRecord
rows i = if ltb i 2 then waiting_job else running_job

rows_wait : (i : ℕ) → i < 2 → StillWaits (rows i)
unfolding new_row
rows_wait i l = rw (lt→ltb i 2 l) (refl, refl)

third_runs : state_eq (rows 2).state running ≡ true
third_runs = refl

wait_for_job_running-telling_example :
    run (telling rows) (wait_for_job_running no_text 10 1) 0 ≡ (ok (rows 2), 3)
wait_for_job_running-telling_example =
    wait_for_job_running-telling no_text rows 1 2 10 (omega arith) rows_wait third_runs

abbrev resources : ResourceArgs
resources = record {
  job_name = none;
  partition = some (lit "gpu");
  cpus_per_task = some 2;
  ntasks = none;
  mem = some (lit "1G");
  time = none;
  gpus = none;
  chdir = none;
  constraint = none;
}

abbrev resolved : ResolvedResourceArgs
resolved = record {
  job_name = none;
  partition = lit "gpu";
  cwd = lit "/home/ana";
  requested_cpus = 2;
  requested_tasks = 1;
  requested_memory_mb = 1024;
  requested_gpus = 1;
  time_limit_secs = none;
  constraint = none;
}

resolved_found : resolve (lit "/home/ana") machine resources none ≡ ok resolved
unfolding resolve lit any text_eq is_empty trim parse_u64 split_digits scale_unit to_ascii_uppercase
    is_gpu_partition
resolved_found = refl

resolve-IsPossible_example : IsPossible machine resolved
resolve-IsPossible_example =
    resolve-IsPossible (lit "/home/ana") machine resources none resolved resolved_found

abbrev one_variable : Env
one_variable = (lit "FOO", lit "1") ∷ []

abbrev export_list : List Text
export_list = lit "FOO=2" ∷ lit "ALL" ∷ lit "FOO=1" ∷ []

entries_accepted : export_entries variables [] export_list ≡ ok one_variable
unfolding export_entries lit
entries_accepted = refl

export_entries-last_word_example :
    env_value one_variable (lit "FOO")
    ≡ value_after
        (last_word (env_value variables) (lit "FOO") export_list)
        (env_value [] (lit "FOO"))
export_entries-last_word_example =
    export_entries-last_word variables [] export_list one_variable (lit "FOO") entries_accepted
