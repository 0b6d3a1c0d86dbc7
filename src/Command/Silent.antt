-- ===== src/Command/Silent.antt =====
-- The subcommands that only look: `sacct`, `sinfo`, `squeue` and `scontrol show`.
use slotd.Prelude.{
  List, Result, ok, err, diverges, ℕ, ◌≡◌, refl, ◌∙◌, none, some, Text, ℤ, SlotdError,
}
use slotd.Config.{AppConfig}
use slotd.Job.{JobRecord, NodeInfo}
use slotd.Store.{node_info}
use slotd.Util.Time.{parse_time_filter}
use slotd.Command.Helpers.{parse_states}
use slotd.Format.Squeue.{SqueueField}
use slotd.Format.Sacct.{SacctField, parse_sacct_fields}
use slotd.Format.Sinfo.{SinfoField, parse_sinfo_fields}
use slotd.Runtime.{World, Daemon, ◌>>=◌, read, pure, lift}
use slotd.Daemon.{
  Request, Response, list_queue, list_accounting, list_steps_of, get_job_of, node_info_of,
  dispatch_request, submitted, jobs, job, was_cancelled, node, error,
}
use slotd.Command.Arguments.{SacctArgs, SinfoArgs, SqueueArgs}
use slotd.Command.Client.{Client, run, done, refuse}
use slotd.Command.Listing.{
  run_sacct, run_sinfo, run_squeue, sacct_answer, sinfo_answer, squeue_answer, squeue_fields,
  squeue_states, transpose, to_fields,
}
use slotd.Command.Control.{run_show_job, show_answer, steps_answer}
use slotd.Command.Session.{handle_stream, Asks, from_result-Asks, asking-Asks, run-keeps}

data IsQuery : Request → Type 0 where
  queue : (q : _) → IsQuery (list_queue q)
  accounting : (q : _) → IsQuery (list_accounting q)
  steps_of : (parent_job_id : ℕ) → IsQuery (list_steps_of parent_job_id)
  one_job : (job_id : ℕ) → IsQuery (get_job_of job_id)
  nodes : IsQuery node_info_of

lifted_silent : (r : Result NodeInfo) (d : Daemon) → ((lift r >>= λ info. pure (node info)) d).1 ≡ d
unfolding ◌>>=◌ lift pure
lifted_silent (ok info) d = refl
lifted_silent (err e) d = refl
lifted_silent diverges d = refl

dispatch-silent :
    (w : World) (request : Request) (d : Daemon)
    → IsQuery request
    → (dispatch_request w request d).1 ≡ d
unfolding dispatch_request ◌>>=◌ read pure
dispatch-silent w request d (queue q) = refl
dispatch-silent w request d (accounting q) = refl
dispatch-silent w request d (steps_of parent_job_id) = refl
dispatch-silent w request d (one_job job_id) = refl
dispatch-silent w request d nodes = lifted_silent (node_info d.store) d

module _ (debug : Response → Text) (config : AppConfig) where
  sacct_answer-Asks :
      (now : ℤ) (args : SacctArgs) (fields : List SacctField) (r : Response)
      → Asks IsQuery (sacct_answer debug config now args fields r)
  unfolding sacct_answer done refuse Asks
  sacct_answer-Asks now args fields (jobs found) = tt
  sacct_answer-Asks now args fields (error problem) = tt
  sacct_answer-Asks now args fields (submitted i) = tt
  sacct_answer-Asks now args fields (was_cancelled i) = tt
  sacct_answer-Asks now args fields (job o) = tt
  sacct_answer-Asks now args fields (node info) = tt

  sinfo_answer-Asks :
      (args : SinfoArgs) (fields : List SinfoField) (r : Response)
      → Asks IsQuery (sinfo_answer debug config args fields r)
  unfolding sinfo_answer done refuse Asks
  sinfo_answer-Asks args fields (jobs found) = tt
  sinfo_answer-Asks args fields (error problem) = tt
  sinfo_answer-Asks args fields (submitted i) = tt
  sinfo_answer-Asks args fields (was_cancelled i) = tt
  sinfo_answer-Asks args fields (job o) = tt
  sinfo_answer-Asks args fields (node info) = tt

  squeue_answer-Asks :
      (now : ℤ) (args : SqueueArgs) (fields : List SqueueField) (r : Response)
      → Asks IsQuery (squeue_answer debug config now args fields r)
  unfolding squeue_answer done refuse Asks
  squeue_answer-Asks now args fields (jobs found) = tt
  squeue_answer-Asks now args fields (error problem) = tt
  squeue_answer-Asks now args fields (submitted i) = tt
  squeue_answer-Asks now args fields (was_cancelled i) = tt
  squeue_answer-Asks now args fields (job o) = tt
  squeue_answer-Asks now args fields (node info) = tt

  steps_answer-Asks :
      (found : JobRecord) (r : Response) → Asks IsQuery (steps_answer debug config found r)
  unfolding steps_answer done refuse Asks
  steps_answer-Asks found (jobs steps) = tt
  steps_answer-Asks found (error problem) = tt
  steps_answer-Asks found (submitted i) = tt
  steps_answer-Asks found (was_cancelled i) = tt
  steps_answer-Asks found (job o) = tt
  steps_answer-Asks found (node info) = tt

  show_answer-Asks : (job_id : ℕ) (r : Response) → Asks IsQuery (show_answer debug config job_id r)
  unfolding show_answer refuse Asks
  show_answer-Asks job_id (job (some found)) =
      asking-Asks IsQuery (list_steps_of found.id) (steps_answer debug config found)
        (steps_of found.id) (steps_answer-Asks found)
  show_answer-Asks job_id (job none) = tt
  show_answer-Asks job_id (jobs found) = tt
  show_answer-Asks job_id (error problem) = tt
  show_answer-Asks job_id (submitted i) = tt
  show_answer-Asks job_id (was_cancelled i) = tt
  show_answer-Asks job_id (node info) = tt

  run_show_job-Asks : (job_id : ℕ) → Asks IsQuery (run_show_job debug config job_id)
  unfolding run_show_job
  run_show_job-Asks job_id =
      asking-Asks IsQuery (get_job_of job_id) (show_answer debug config job_id) (one_job job_id)
        (show_answer-Asks job_id)

  run_sacct-Asks : (now : ℤ) (args : SacctArgs) → Asks IsQuery (run_sacct debug config now args)
  unfolding run_sacct
  run_sacct-Asks now args =
      from_result-Asks IsQuery (transpose parse_states args.states) _ λ states.
        from_result-Asks IsQuery (to_fields (parse_sacct_fields args.format)) _ λ fields.
          from_result-Asks IsQuery (transpose (parse_time_filter now) args.start_time) _
            λ start_time.
              from_result-Asks IsQuery (transpose (parse_time_filter now) args.end_time) _
                λ end_time.
                  asking-Asks IsQuery
                    (list_accounting (record {
                      states = states;
                      ids = args.jobs;
                      user_name = args.user;
                      partitions = args.partitions;
                      start_time = start_time;
                      end_time = end_time;
                    }))
                    (sacct_answer debug config now args fields) (accounting _)
                    (sacct_answer-Asks now args fields)

  run_sinfo-Asks : (args : SinfoArgs) → Asks IsQuery (run_sinfo debug config args)
  unfolding run_sinfo
  run_sinfo-Asks args =
      from_result-Asks IsQuery (to_fields (parse_sinfo_fields args.format args.long)) _ λ fields.
        asking-Asks IsQuery node_info_of (sinfo_answer debug config args fields) nodes
          (sinfo_answer-Asks args fields)

  run_squeue-Asks : (now : ℤ) (args : SqueueArgs) → Asks IsQuery (run_squeue debug config now args)
  unfolding run_squeue
  run_squeue-Asks now args =
      from_result-Asks IsQuery (squeue_fields args args.start args.format) _ λ fields.
        from_result-Asks IsQuery (squeue_states args.states args.all) _ λ states.
          asking-Asks IsQuery
            (list_queue (record {
              states = states;
              ids = args.jobs;
              user_name = args.user;
              partitions = args.partitions;
              start_time = none;
              end_time = none;
            }))
            (squeue_answer debug config now args fields) (queue _)
            (squeue_answer-Asks now args fields)

-- A session of a client that only asks leaves the daemon as it was.
session_silent :
    (text_of : SlotdError → Text) (worlds : ℕ → World) {A : Type 0} (c : Client A) (n : ℕ)
    (d : Daemon)
    → Asks IsQuery c
    → (run (handle_stream text_of worlds) c (n, d)).1.1 ≡ d
session_silent text_of worlds c n d h =
    run-keeps IsQuery text_of worlds (λ e. e ≡ d)
      (λ w request e q i. dispatch-silent w request e q ∙ i) c n d h refl

-- `sacct`, `sinfo`, `squeue` and `scontrol show`, run against the daemon from any state, whatever their
-- arguments and whatever the outside answers during their requests, leave the daemon's table, its
-- processes and its effects exactly as they were.
pub listing_commands_silent :
    (debug : Response → Text) (text_of : SlotdError → Text) (worlds : ℕ → World)
    (config : AppConfig) (now : ℤ) (sacct_args : SacctArgs) (sinfo_args : SinfoArgs)
    (squeue_args : SqueueArgs) (job_id : ℕ) (n : ℕ) (d : Daemon)
    → ((run (handle_stream text_of worlds) (run_sacct debug config now sacct_args) (n, d)).1.1 ≡ d)
      × ((run (handle_stream text_of worlds) (run_sinfo debug config sinfo_args) (n, d)).1.1 ≡ d)
      × ((run (handle_stream text_of worlds) (run_squeue debug config now squeue_args) (n, d)).1.1
          ≡ d)
      × ((run (handle_stream text_of worlds) (run_show_job debug config job_id) (n, d)).1.1 ≡ d)
listing_commands_silent debug text_of worlds config now sacct_args sinfo_args squeue_args job_id n
      d =
    (
      session_silent text_of worlds _ n d (run_sacct-Asks debug config now sacct_args),
      session_silent text_of worlds _ n d (run_sinfo-Asks debug config sinfo_args),
      session_silent text_of worlds _ n d (run_squeue-Asks debug config now squeue_args),
      session_silent text_of worlds _ n d (run_show_job-Asks debug config job_id),
    )
