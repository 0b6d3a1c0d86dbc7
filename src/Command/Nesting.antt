-- ===== src/Command/Nesting.antt =====
-- `srun` inside a process that the daemon or an allocation started: it finds the allocation it runs in.
use slotd.Prelude.{
  subst, sym, inl, inr, ◌⊎◌, ℕ, ◌≡◌, refl, ◌≤◌, ◌∙◌, ap, true, false, ◌&&◌, List, Option, none,
  some, Text, lit, Result, ok,
}
use slotd.Strings.{show_nat, show_int, text_eq, i64_max}
use slotd.Strings.Decimal.{parse_i64-show_nat}
use slotd.Config.{AppConfig}
use slotd.Job.{JobRecord, state_eq, running, unwrap_or}
use slotd.Daemon.{Request, Response, get_job_of, job}
use slotd.Util.Env.{Env, env_value, upsert_env_pair}
use slotd.Util.EnvLaws.{env_value-upsert_env_pair}
use slotd.Runtime.SlurmEnv.{apply_slurm_env, job_id_of, set_some, shown, at_least_one}
use slotd.Command.Client.{Client, returns, run, done, asking, send_request, chain, from_result}
use slotd.Command.Sbatch.{Host}
use slotd.Command.Allocation.{
  current_allocation_job, parse_allocation, ask_allocation, allocation_answer,
}

abbrev id_name : Text
id_name = lit "SLURM_JOB_ID"

set_other :
    (env : Env) (name value : Text)
    → text_eq name id_name ≡ false
    → env_value (upsert_env_pair env name value) id_name ≡ env_value env id_name
set_other env name value e = env_value-upsert_env_pair env name value id_name ∙ (rw e refl)

set_some_other :
    (env : Env) (name : Text) (value : Option Text)
    → text_eq name id_name ≡ false
    → env_value (set_some name value env) id_name ≡ env_value env id_name
unfolding set_some
set_some_other env name none e = refl
set_some_other env name (some value) e = set_other env name value e

id-apply_slurm_env :
    (config : AppConfig) (found : JobRecord) (env : Env)
    → env_value (apply_slurm_env config found env) id_name ≡ some (show_nat (job_id_of found))
unfolding apply_slurm_env text_eq lit
id-apply_slurm_env config found env =
    set_other _ (lit "SLURM_STEP_ID") (show_nat (unwrap_or 0 found.step_id)) refl
    ∙ set_some_other _ (lit "SLURM_ARRAY_TASK_ID") (shown show_int found.array_task_id) refl
    ∙ set_some_other _ (lit "SLURM_ARRAY_JOB_ID") (shown show_nat found.array_job_id) refl
    ∙ set_other _ (lit "SLURM_CPUS_PER_TASK") (show_nat found.requested_cpus) refl
    ∙ set_other _ (lit "SLURM_NTASKS") (show_nat (at_least_one found.requested_tasks)) refl
    ∙ set_other _ (lit "SLURM_SUBMIT_DIR") found.cwd refl
    ∙ set_other _ (lit "SLURM_JOB_NODELIST") config.hostname refl
    ∙ set_other _ (lit "SLURM_JOB_PARTITION") found.partition refl
    ∙ set_other _ (lit "SLURM_JOB_NAME") found.name refl
    ∙ env_value-upsert_env_pair env id_name (show_nat (job_id_of found)) id_name

asked :
    (debug : Response → Text) (rounds : ℕ) (host : Host) (config : AppConfig)
    (foreground step : JobRecord → List Text → Client (List Text)) (started : JobRecord) (env : Env)
    → job_id_of started ≤ i64_max
    → host.vars ≡ apply_slurm_env config started env
    → current_allocation_job debug rounds host config foreground step
      ≡ asking
          (get_job_of (job_id_of started))
          (allocation_answer debug rounds host config foreground step)
unfolding current_allocation_job parse_allocation ask_allocation
asked debug rounds host config foreground step started env small vars =
    ap (parse_allocation debug rounds host config foreground step)
      (ap (λ (v : Env). env_value v id_name) vars ∙ id-apply_slurm_env config started env)
    ∙ ap (ask_allocation debug rounds host config foreground step)
        (parse_i64-show_nat (job_id_of started) small)

-- The process is a step of the parent, or the allocation's own.
abbrev pub RunsIn : (started parent : JobRecord) → Type 0
RunsIn started parent =
    (started.parent_job_id ≡ some parent.id)
    ⊎ ((started.parent_job_id ≡ none) × (started.id ≡ parent.id))

job_id_of-RunsIn :
    (started parent : JobRecord) → RunsIn started parent → job_id_of started ≡ parent.id
unfolding job_id_of
job_id_of-RunsIn started parent (inl h) = rw h refl
job_id_of-RunsIn started parent (inr h) = rw (h.0) h.1

-- In a process with the variables that an allocation, or a step of it, is given, `srun` asks for the row of
-- that allocation by its id, and no more; when the daemon answers with this row, which runs and is an
-- allocation, it is the allocation that the command runs in.
pub current_allocation_job-apply_slurm_env :
    (debug : Response → Text) (rounds : ℕ) (host : Host) (config : AppConfig)
    (foreground step : JobRecord → List Text → Client (List Text)) (started parent : JobRecord)
    (env : Env) {S : Type 0} (serve : S → Request → Result Response × S) (s later : S)
    → RunsIn started parent
    → parent.id ≤ i64_max
    → host.vars ≡ apply_slurm_env config started env
    → serve s (get_job_of parent.id) ≡ (ok (job (some parent)), later)
    → (state_eq parent.state running && parent.allocation_only) ≡ true
    → run serve (current_allocation_job debug rounds host config foreground step) s
      ≡ (ok (some parent), later)
unfolding allocation_answer asking send_request chain from_result done run
current_allocation_job-apply_slurm_env debug rounds host config foreground step started parent env
      {S = S} serve s later inside small vars served alive =
    let same = job_id_of-RunsIn started parent inside in
    ap (λ (c : Client (Option JobRecord)). run serve c s)
      (asked debug rounds host config foreground step started env
        (subst (λ i. i ≤ i64_max) (sym same) small) vars)
    ∙ ap
        (λ (p : Result Response × S).
          run serve
            (chain (returns p.0) (allocation_answer debug rounds host config foreground step)) p.1)
        (subst (λ i. serve s (get_job_of i) ≡ (ok (job (some parent)), later)) (sym same) served)
    ∙ (rw alive refl)
