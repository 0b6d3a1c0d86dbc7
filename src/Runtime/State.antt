-- ===== src/Runtime/State.antt =====
-- The state of the daemon (`Store` and `Runner`), what it does to the outside, and what it learns
-- from there during one call: the clock, files, processes and cgroups of the operating system.
use slotd.Prelude.{
  ℕ, Bool, List, [], ◌∷◌, Option, none, some, Text, ℤ, Result, ok, err, diverges, SlotdError,
  Answer, to_result, if◌then◌else◌, ◌==◌,
}
use slotd.Job.{JobRecord}
use slotd.Store.{Store, JobPaths}

-- `std::process::ExitStatus`, by its `code()` and `signal()`.
pub record ExitStatus : Type 0 where
  pub code : Option ℤ
  pub signal : Option ℤ

pub data JobHandle : Type 0 where
  child adopted : JobHandle

pub record RunningJob : Type 0 where
  pub pgid : ℤ
  pub pid : ℤ
  pub cgroup_path : Option Text
  pub status_path : Option Text
  pub warning_signal_sent : Bool
  pub handle : JobHandle

-- `HashMap<i64, RunningJob>`. Its order of iteration is any; here it is the order of the list.
abbrev pub RunningJobs : Type 0
RunningJobs = List (ℕ × RunningJob)

unfoldable pub find_running : ℕ → RunningJobs → Option RunningJob
find_running id [] = none
find_running id ((i, r) ∷ rs) = if i == id then some r else find_running id rs

unfoldable pub remove_running : ℕ → RunningJobs → RunningJobs
remove_running id [] = []
remove_running id ((i, r) ∷ rs) =
    if i == id then remove_running id rs else (i, r) ∷ remove_running id rs

unfoldable pub insert_running : ℕ → RunningJob → RunningJobs → RunningJobs
unfolding remove_running
insert_running id r rs = (id, r) ∷ remove_running id rs

-- What the daemon does that another process sees.
pub data Effect : Type 0 where
  spawned : (job_id : ℕ) → (pid : ℤ) → Effect
  signalled : (pgid signal : ℤ) → Effect
  notified : (job_id : ℕ) → Effect

pub record Daemon : Type 0 where
  pub store : Store
  pub runner : RunningJobs
  pub effects : List Effect

-- The answers of the outside during one call.
pub record World : Type 0 where
  pub now : ℤ
  pub write_files : JobPaths → Text → Answer (Unit {0})
  pub open_outputs : JobRecord → Answer (Unit {0})
  pub write_wrapper : JobRecord → Answer (Unit {0})
  pub spawn : JobRecord → List ℕ → Answer ℤ
  pub setup_cgroup : JobRecord → ℤ → Answer (Option Text)
  pub group_alive : ℤ → Answer Bool
  -- How the polling for the end of a process group comes out.
  pub wait_for_group_exit : ℤ → Answer (Unit {0})
  pub valid_signal : ℤ → Bool
  pub try_wait : ℤ → Answer (Option ExitStatus)
  pub wait : ℤ → Answer ExitStatus
  pub oomed : Text → Bool
  pub read_status : Text → Option Text
  pub rss_kb : ℤ → Option ℕ
  pub run_notify : Text → JobRecord → Answer (Unit {0})

-- What a call returns, and the state that it leaves, also when it fails.
abbrev pub M : Type 0 → Type 0
M A = Daemon → Result A × Daemon

unfoldable pub and_then : {A B : Type 0} → Result A × Daemon → (A → M B) → Result B × Daemon
and_then (ok a, d) f = f a d
and_then (err e, d) f = (err e, d)
and_then (diverges, d) f = (diverges, d)

infixl 5 ◌>>=◌ ◌>>◌
unfoldable pub ◌>>=◌ : {A B : Type 0} → M A → (A → M B) → M B
unfolding and_then
◌>>=◌ m f d = and_then (m d) f

unfoldable pub ◌>>◌ : {B : Type 0} → M (Unit {0}) → M B → M B
unfolding and_then
◌>>◌ m k d = and_then (m d) (λ _. k)

unfoldable pub pure : {A : Type 0} → A → M A
pure a d = (ok a, d)

unfoldable pub fail : {A : Type 0} → SlotdError → M A
fail e d = (err e, d)

unfoldable pub lift : {A : Type 0} → Result A → M A
lift r d = (r, d)

-- A call to the outside.
unfoldable pub ask : {A : Type 0} → Answer A → M A
ask a d = (to_result a, d)

unfoldable pub read : {A : Type 0} → (Store → A) → M A
read f d = (ok (f d.store), d)

unfoldable pub on_store : (Store → Store) → M (Unit {0})
on_store f d = (ok tt, record d { store = f d.store })

-- An operation of the store that may fail, and keeps what it has written.
unfoldable pub store_call : {A : Type 0} → (Store → Result A × Store) → M A
store_call f d = let (r, s) = f d.store in (r, record d { store = s })

-- An operation of the store that cannot fail, with a result.
unfoldable pub store_run : {A : Type 0} → (Store → A × Store) → M A
store_run f d = let (a, s) = f d.store in (ok a, record d { store = s })

unfoldable pub get_runner : M RunningJobs
get_runner d = (ok d.runner, d)

unfoldable pub on_runner : (RunningJobs → RunningJobs) → M (Unit {0})
on_runner f d = (ok tt, record d { runner = f d.runner })

unfoldable pub emit : Effect → M (Unit {0})
emit e d = (ok tt, record d { effects = e ∷ d.effects })
