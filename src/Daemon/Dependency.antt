-- ===== src/Daemon/Dependency.antt =====
-- `pending_block_reason`, `dependency_satisfied` and `dependency_clause_satisfied` of
-- src/runtime/daemon.rs.
use slotd.Prelude.{
  ℕ, Bool, true, false, ◌&&◌, ◌||◌, not, List, [], ◌∷◌, ◌++◌, map, Option, none, some, Text, lit,
  ltb, leb, if◌then◌else◌, ℤ, ltb_ℤ, keep, Result, ok, ◌>>=◌, message, ok_or, collect,
}
use slotd.Strings.{trim, is_empty, split, split_once, text_eq, eq_ignore_ascii_case, parse_i64}
use slotd.Job.{JobRecord, state_eq, is_terminal, completed}
use slotd.Store.{Store, get_job_i64, has_active_job_with_name, running_array_tasks}

abbrev pub is_some {ℓ} : {A : Type ℓ} → Option A → Bool
is_some none = false
is_some (some a) = true

-- The kinds of dependency on one job.
unfoldable pub kind_satisfied : Text → JobRecord → Bool
kind_satisfied kind target =
    if text_eq kind (lit "after")
    then is_some target.start_time || is_terminal target.state
    else if text_eq kind (lit "afterany")
    then is_terminal target.state
    else if text_eq kind (lit "afterok")
    then state_eq target.state completed
    else if text_eq kind (lit "afternotok")
    then is_terminal target.state && not (state_eq target.state completed)
    else false

unfoldable pub target_satisfied : Text → Option JobRecord → Bool
unfolding kind_satisfied
target_satisfied kind none = false
target_satisfied kind (some target) = kind_satisfied kind target

unfoldable pub ids_satisfied : Store → Text → List ℤ → Bool
unfolding target_satisfied
ids_satisfied s kind [] = true
ids_satisfied s kind (id ∷ ids) =
    target_satisfied kind (get_job_i64 s id) && ids_satisfied s kind ids

unfoldable pub parse_dependency_id : Text → Result ℤ
parse_dependency_id value =
    ok_or (parse_i64 value) (message (lit "invalid dependency job id: " ++ value))

-- `split(sep).map(str::trim).filter(|v| !v.is_empty())`.
unfoldable pub parts : ℕ → Text → List Text
unfolding keep
parts sep s = keep (λ v. not (is_empty v)) (map trim (split sep s))

unfoldable pub checked_ids : Store → Text → List ℤ → Bool
unfolding ids_satisfied
checked_ids s kind [] = false
checked_ids s kind (id ∷ ids) = ids_satisfied s kind (id ∷ ids)

-- A clause that is no `singleton`: its kind, and its ids after the first colon.
unfoldable pub kind_clause_satisfied : Store → Option (Text × Text) → Result Bool
unfolding checked_ids collect
kind_clause_satisfied s none = ok false
kind_clause_satisfied s (some (kind, value)) =
    collect parse_dependency_id (parts b':' value) >>= λ ids. ok (checked_ids s kind ids)

unfoldable pub dependency_clause_satisfied : Store → JobRecord → Text → Result Bool
unfolding kind_clause_satisfied
dependency_clause_satisfied s job clause =
    if eq_ignore_ascii_case clause (lit "singleton")
    then ok (not (has_active_job_with_name s job.user_name job.name job.id))
    else kind_clause_satisfied s (split_once b':' clause)

unfoldable pub clauses_satisfied : Store → JobRecord → List Text → Result Bool
clauses_satisfied s job [] = ok true
clauses_satisfied s job (c ∷ cs) = dependency_clause_satisfied s job c >>= λ satisfied.
    elim satisfied [ true ↦ clauses_satisfied s job cs | false ↦ ok false ]

unfoldable pub spec_satisfied : Store → JobRecord → Option Text → Result Bool
unfolding clauses_satisfied
spec_satisfied s job none = ok true
spec_satisfied s job (some spec) =
    if is_empty (trim spec) then ok true else clauses_satisfied s job (parts b',' (trim spec))

unfoldable pub dependency_satisfied : Store → JobRecord → Result Bool
unfolding spec_satisfied
dependency_satisfied s job = spec_satisfied s job job.dependency

unfoldable pub begins_later : Option ℤ → ℤ → Bool
begins_later none now = false
begins_later (some value) now = ltb_ℤ now value

unfoldable pub at_limit : Store → Option ℕ → Option ℕ → Bool
at_limit s (some array_job_id) (some limit) =
    ltb 0 limit && leb limit (running_array_tasks s array_job_id)
at_limit s (some array_job_id) none = false
at_limit s none limit = false

unfoldable pub array_at_limit : Store → JobRecord → Bool
unfolding at_limit
array_at_limit s job = at_limit s job.array_job_id job.array_task_limit

unfoldable pub pending_block_reason : Store → ℤ → JobRecord → Result (Option Text)
unfolding begins_later
pending_block_reason s now job =
    if begins_later job.begin_time now
    then ok (some (lit "BeginTime"))
    else if job.held
    then ok (some (lit "JobHeldUser"))
    else (dependency_satisfied s job >>= λ satisfied.
        if not satisfied
        then ok (some (lit "Dependency"))
        else if array_at_limit s job
        then ok (some (lit "JobArrayTaskLimit"))
        else ok none)
