-- ===== src/Daemon/Halting.antt =====
-- The checks of src/runtime/daemon.rs that the scheduler makes before it starts a job.
use slotd.Prelude.{
  List, [], ◌∷◌, Option, none, some, Text, ℤ, Halts, bind-Halts, ok_or-Halts, collect-Halts,
  collect, arith,
}
use slotd.Strings.{split_once, trim, parse_i64}
use slotd.Job.{JobRecord}
use slotd.Store.{Store}
use slotd.Daemon.Dependency.{
  parse_dependency_id, kind_clause_satisfied, spec_satisfied, dependency_clause_satisfied,
  clauses_satisfied, dependency_satisfied, pending_block_reason, parts,
}

parse_dependency_id-Halts : (v : Text) → Halts (parse_dependency_id v)
unfolding parse_dependency_id
parse_dependency_id-Halts v = ok_or-Halts (parse_i64 v) _

kind_clause-Halts : (s : Store) (o : Option (Text × Text)) → Halts (kind_clause_satisfied s o)
unfolding kind_clause_satisfied
kind_clause-Halts s none = tt
kind_clause-Halts s (some (kind, value)) =
    bind-Halts (collect parse_dependency_id (parts b':' value)) _
      (collect-Halts parse_dependency_id (parts b':' value) parse_dependency_id-Halts) (λ ids. tt)

clause-Halts :
    (s : Store) (job : JobRecord) (c : Text) → Halts (dependency_clause_satisfied s job c)
unfolding dependency_clause_satisfied
clause-Halts s job c = ground (arith, kind_clause-Halts s (split_once b':' c))

clauses_satisfied-Halts :
    (s : Store) (job : JobRecord) (cs : List Text) → Halts (clauses_satisfied s job cs)
unfolding clauses_satisfied
clauses_satisfied-Halts s job [] = tt
clauses_satisfied-Halts s job (c ∷ cs) =
    ground (arith, clause-Halts s job c, clauses_satisfied-Halts s job cs)

spec-Halts : (s : Store) (job : JobRecord) (o : Option Text) → Halts (spec_satisfied s job o)
unfolding spec_satisfied
spec-Halts s job none = tt
spec-Halts s job (some spec) =
    ground (arith, clauses_satisfied-Halts s job (parts b',' (trim spec)))

dependency_satisfied-Halts : (s : Store) (job : JobRecord) → Halts (dependency_satisfied s job)
unfolding dependency_satisfied
dependency_satisfied-Halts s job = spec-Halts s job job.dependency

pub pending_block_reason-Halts :
    (s : Store) (now : ℤ) (job : JobRecord) → Halts (pending_block_reason s now job)
unfolding pending_block_reason
pending_block_reason-Halts s now job = ground (arith, dependency_satisfied-Halts s job)
