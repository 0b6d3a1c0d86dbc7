-- ===== src/Runtime/Launching.antt =====
-- The launch of src/runtime/runner.rs as a triple on the store.
use slotd.Prelude.{ℕ, ◌≡◌, ℤ, List, ok_or-Halts, Result, Halts}
use slotd.Job.{JobRecord}
use slotd.Store.{Store, mark_running}
use slotd.Runtime.State.{World, lift, read}
use slotd.Runtime.Runner.{launch_running_job, launch, assigned_gpus, job_status_path}
use slotd.Runtime.Runs.{
  Runs, bind-Runs, seq-Runs, post-Runs, pure-Runs, read-Runs, lift-Runs, ask-Runs, on_store-Runs,
  on_runner-Runs, emit-Runs,
}
use slotd.Runtime.Halting.{assigned_gpus-Halts, resolve_cpu_bind_ids-Halts}

module _ (w : World) (job : JobRecord) (F P Q : Store → Type 0) (fails : (s : Store) → P s → F s)
    (starts : (s : Store) (pid : ℤ) (gpus : List ℕ)
      → P s
      → Q (mark_running job.id pid pid gpus w.now s)) where
  chosen-Runs :
      (r : Result (List ℕ)) → Runs F (λ s. P s × (r ≡ assigned_gpus job s)) (lift r) (λ _. P)
  chosen-Runs r =
      post-Runs F (λ a s v. v.0.0)
        (lift-Runs F r (λ s v. (rw v.1 (assigned_gpus-Halts job s), fails s v.0)))

  lifted-Runs : {A : Type 0} (r : Result A) → Halts r → Runs F P (lift r) (λ _. P)
  lifted-Runs r h = post-Runs F (λ a s v. v.0) (lift-Runs F r (λ s v. (h, fails s v)))

  read_only-Runs : {A : Type 0} (f : Store → A) → Runs F P (read f) (λ _. P)
  read_only-Runs f = post-Runs F (λ a s v. v.0) (read-Runs F f)

  pub launch-Runs : Runs F P (launch w job) (λ _. Q)
  unfolding launch launch_running_job
  launch-Runs =
      bind-Runs F (λ _. Q)
        (seq-Runs F P (ask-Runs F _ fails) (
          bind-Runs F (λ a s. P s × (a ≡ assigned_gpus job s)) (read-Runs F (assigned_gpus job))
            λ chosen.
              bind-Runs F (λ _. P) (chosen-Runs chosen)
                λ assigned.
                  bind-Runs F (λ _. P) (lifted-Runs _ (ok_or-Halts (job_status_path job) _))
                    λ path. seq-Runs F P (ask-Runs F _ fails) (
                      bind-Runs F (λ _. P) (read_only-Runs _)
                        λ total.
                          bind-Runs F (λ _. P)
                            (lifted-Runs _ (resolve_cpu_bind_ids-Halts job.cpu_bind total _))
                            λ cpus.
                              bind-Runs F (λ _. P) (ask-Runs F _ fails)
                                λ pid. seq-Runs F P (emit-Runs F _) (
                                  bind-Runs F (λ _. P) (ask-Runs F _ fails)
                                    λ cgroup.
                                      seq-Runs F Q
                                        (on_store-Runs F _ (λ s v. starts s pid assigned v))
                                        (pure-Runs F _ (λ s v. v))))))
        (λ r. on_runner-Runs F _)
