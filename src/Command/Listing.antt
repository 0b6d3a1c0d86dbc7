-- ===== src/Command/Listing.antt =====
-- src/command/handlers: `sacct`, `sinfo` and `squeue`. A client returns the lines it prints, `none` where
-- printing panics.
use slotd.Prelude.{
  Bool, true, false, List, [], ◌∷◌, ◌++◌, Option, none, some, Text, lit, if◌then◌else◌, ℤ, Result,
  ok, err, message, ◌>>=◌,
}
use slotd.Config.{AppConfig}
use slotd.Job.{Parsed, parsed, unparsed, JobState, pending, running}
use slotd.Daemon.{Response, list_queue, list_accounting, node_info_of, jobs, node, error}
use slotd.Format.Squeue.{
  SqueueField, parse_squeue_fields, print_squeue_jobs, print_squeue_jobs_with_options,
  print_squeue_jobs_with_start_times,
}
use slotd.Format.Sacct.{
  parse_sacct_fields, print_sacct_jobs, print_sacct_jobs_delimited, SacctField,
}
use slotd.Format.Sinfo.{parse_sinfo_fields, print_sinfo, print_sinfo_nodes, SinfoField}
use slotd.Format.Node.{build_sinfo_node_rows}
use slotd.Util.Time.{parse_time_filter}
use slotd.Command.Client.{Client, done, refuse, from_result, asking}
use slotd.Command.Arguments.{SacctArgs, SinfoArgs, SqueueArgs}
use slotd.Command.Helpers.{parse_states, filter_partitions, sort_squeue_jobs}
use slotd.Command.StartTimes.{estimate_start_times}

-- `map_err(SlotdError::from)?`, and `map(f).transpose()?`.
unfoldable pub to_fields {ℓ} : {A : Type ℓ} → Parsed A → Result A
to_fields (parsed a) = ok a
to_fields (unparsed problem) = err (message problem)

unfoldable pub transpose {ℓ κ} :
    {A : Type ℓ} {B : Type κ} → (A → Result B) → Option A → Result (Option B)
transpose f none = ok none
transpose f (some a) = f a >>= λ b. ok (some b)

unfoldable pub sacct_answer :
    (debug : Response → Text)
    → AppConfig
    → ℤ
    → SacctArgs
    → List SacctField
    → Response
    → Client (Option (List Text))
unfolding done refuse print_sacct_jobs print_sacct_jobs_delimited lit
sacct_answer debug config now args fields (jobs found) = done (
    if args.parsable2
    then some (print_sacct_jobs_delimited config now found fields args.noheader (lit "|"))
    else print_sacct_jobs config now found fields args.noheader)
sacct_answer debug config now args fields (error problem) = refuse problem
sacct_answer debug config now args fields other =
    refuse (lit "unexpected response to sacct: " ++ debug other)

unfoldable pub run_sacct :
    (debug : Response → Text) → AppConfig → (now : ℤ) → SacctArgs → Client (Option (List Text))
unfolding transpose to_fields parse_states parse_sacct_fields parse_time_filter from_result asking
    sacct_answer
run_sacct debug config now args = from_result (transpose parse_states args.states) λ states.
    from_result (to_fields (parse_sacct_fields args.format)) λ fields.
      from_result (transpose (parse_time_filter now) args.start_time) λ start_time.
        from_result (transpose (parse_time_filter now) args.end_time) λ end_time.
          asking
            (list_accounting (record {
              states = states;
              ids = args.jobs;
              user_name = args.user;
              partitions = args.partitions;
              start_time = start_time;
              end_time = end_time;
            }))
            (sacct_answer debug config now args fields)

unfoldable pub sinfo_answer :
    (debug : Response → Text)
    → AppConfig
    → SinfoArgs
    → List SinfoField
    → Response
    → Client (Option (List Text))
unfolding done refuse filter_partitions build_sinfo_node_rows print_sinfo print_sinfo_nodes lit
sinfo_answer debug config args fields (node info) =
    let partitions = filter_partitions info.partitions args.partitions in
    done (
      if args.node
      then print_sinfo_nodes (build_sinfo_node_rows config.default_partition partitions) fields
          args.noheader
      else print_sinfo config.default_partition partitions fields args.noheader)
sinfo_answer debug config args fields (error problem) = refuse problem
sinfo_answer debug config args fields other =
    refuse (lit "unexpected response to sinfo: " ++ debug other)

unfoldable pub run_sinfo :
    (debug : Response → Text) → AppConfig → SinfoArgs → Client (Option (List Text))
unfolding to_fields parse_sinfo_fields from_result asking sinfo_answer
run_sinfo debug config args =
    from_result (to_fields (parse_sinfo_fields args.format args.long))
      λ fields. asking node_info_of (sinfo_answer debug config args fields)

unfoldable pub squeue_fields : SqueueArgs → Bool → Option Text → Result (List SqueueField)
unfolding to_fields parse_squeue_fields
squeue_fields args true none = ok (
    SqueueField.job_id ∷ SqueueField.partition ∷ SqueueField.name ∷ SqueueField.user
    ∷ SqueueField.state_compact ∷ SqueueField.start_time ∷ SqueueField.node_list_reason ∷ [])
squeue_fields args start format = to_fields (parse_squeue_fields format args.long)

unfoldable pub squeue_states : Option (List Text) → (all : Bool) → Result (Option (List JobState))
unfolding parse_states
squeue_states (some values) all = parse_states values >>= λ states. ok (some states)
squeue_states none true = ok none
squeue_states none false = ok (some (pending ∷ running ∷ []))

unfoldable pub squeue_answer :
    (debug : Response → Text)
    → AppConfig
    → ℤ
    → SqueueArgs
    → List SqueueField
    → Response
    → Client (Option (List Text))
unfolding done refuse sort_squeue_jobs estimate_start_times print_squeue_jobs
    print_squeue_jobs_with_options print_squeue_jobs_with_start_times lit
squeue_answer debug config now args fields (jobs found) =
    let sorted = sort_squeue_jobs found args.sort in
    done (
      if args.start
      then print_squeue_jobs_with_start_times config.hostname now sorted fields
          (estimate_start_times config now sorted) args.noheader args.array
      else if args.array
      then print_squeue_jobs_with_options config.hostname now sorted fields args.noheader true
      else print_squeue_jobs config.hostname now sorted fields args.noheader)
squeue_answer debug config now args fields (error problem) = refuse problem
squeue_answer debug config now args fields other =
    refuse (lit "unexpected response to squeue: " ++ debug other)

unfoldable pub run_squeue :
    (debug : Response → Text) → AppConfig → (now : ℤ) → SqueueArgs → Client (Option (List Text))
unfolding squeue_fields squeue_states from_result asking squeue_answer
run_squeue debug config now args = from_result (squeue_fields args args.start args.format) λ fields.
    from_result (squeue_states args.states args.all) λ states.
      asking
        (list_queue (record {
          states = states;
          ids = args.jobs;
          user_name = args.user;
          partitions = args.partitions;
          start_time = none;
          end_time = none;
        }))
        (squeue_answer debug config now args fields)
