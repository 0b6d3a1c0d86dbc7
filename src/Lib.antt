-- ===== src/Lib.antt =====
-- slotd: a single-node job scheduler in the manner of Slurm. A daemon (src/runtime/daemon.rs) keeps a
-- table of jobs (src/store), runs them as processes (src/runtime) and serves the requests of the
-- command line (src/proto/ipc.rs); what a job asks for is read from scripts and options
-- (src/submit/sbatch.rs) and checked against the configuration (src/app/config.rs).
--
-- Parts and files:
--   Prelude: names, lists, signed integers, texts; `SlotdError` and `Result` of src/app/error.rs.
--   Strings: the functions of Rust's `str` that the program calls, on lists of code points.
--   Job: src/model. Submit: src/submit/sbatch.rs, and `merge_batch_directives` of
--   src/command/helpers.rs. Config: src/app/config.rs.
--   Store: src/store. `Store` is the rows of the table `jobs`, the last id given, and the
--   configuration. Each statement is a function of the table: `update_job` is `UPDATE … WHERE id = ?`,
--   `insert_row` is an INSERT. Table, Updates, Control, Usage, Order, Filter, Creation and Reporting
--   are the operations; Ids, Claims, Invariant, Creations, Sound, Current, OrderLaws, Requeue, Gpus, Steps,
--   Fields, Newcomers and Rooms are about them. `Kept` (Store/Invariant) is the interface between the
--   table and those who prove a property of it: one field for an UPDATE, one for an INSERT.
--   Runtime: src/runtime without the daemon. `Daemon` is the store, the processes that the runner
--   tracks and the effects so far; an action `M A` is a function of it that returns a result and the
--   state it leaves, on errors too. SlurmEnv is slurm_env.rs. `Keeps` and `Runs` are the rules for actions.
--   Daemon: src/runtime/daemon.rs: `dispatch_request` with every request, `schedule_pending_jobs`,
--   and `main_round`, which is the main loop's body after the requests.
--   Util: src/util. Calendar is the calendar of time.rs, Time its texts, Signals signals.rs, Env env.rs;
--   CalendarLaws, Epoch, EnvSort, EnvLaws and EnvMeaning are about them.
--   Format: src/format. Tokens are the field lists, Table the cells and lines, and Squeue, Sacct, Sinfo
--   and Node the columns and rows; a table is the list of its lines, `none` where printing panics.
--   Lines, Listings and Names are about them.
--   Command: src/command. A subcommand is a `Client`: it returns, or sends a request and goes on with
--   what comes back. Arguments is args.rs; Helpers, StartTimes and JobText are helpers.rs; Listing and
--   Control are the handlers; Sbatch, Allocation and Wait are src/command/submit; Quoting is the quoting
--   of src/runtime/launch.rs. Session puts a client together with `dispatch_request`, as
--   `handle_stream` does. Sorting, ShellWords, Silent, Acting, Completing, Nesting, Building, Waiting and
--   Resolving are about them.
--   Examples: concrete runs.
--
-- How the code is read:
--   A call that loops for ever is `diverges`. What the operating system answers during one call (the
--   clock, files, processes, cgroups) is a record `World`; it may answer anything, also refusals. One
--   call reads the clock once. Statements of SQLite succeed, and a row is read back as it was
--   written, but for the conversions that src/store/row.rs makes. Ids are natural numbers, since
--   AUTOINCREMENT gives positive ones. The order in which a HashMap is walked is the order of the list.
--   Paths are joined as text; a script's directory is its path up to the last slash.
--
-- Bounds and fuel: `saturating_mul` of u32 and u64, the clamps of i64 in deadlines, the wrap of u64 in
--   time limits, of i32 in array ranges and of u32 in the ids of steps are written out. The scheduling
--   loop has one round more than there are waiting jobs; an array range has 2 ^ 32 rounds, more than there are i32 values; the
--   loop that interleaves array groups has one round more than there are jobs. The loops that wait for
--   a job have the number of rounds that they are given, and without end `diverges`.
--
-- Not modelled: sockets and JSON, SQL text and migrations (src/store/schema.rs), the declarations of
--   the command line and its completions (src/command/cli.rs), foreground jobs
--   (src/runtime/foreground), the text of launch scripts (src/runtime/launch.rs but
--   for its quoting) and cgroup files: they are input and output, or text without state.
--   What a client prints before it fails is left out, as is the debug text of a response, which is an
--   argument.
pub mod Prelude
pub mod Strings
pub mod Job
pub mod Submit
pub mod Config
pub mod Store
pub mod Runtime
pub mod Daemon
pub mod Util
pub mod Format
pub mod Command
pub mod Examples
