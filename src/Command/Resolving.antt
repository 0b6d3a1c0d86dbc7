-- ===== src/Command/Resolving.antt =====
-- What `ResourceArgs::resolve` of src/command/args.rs lets through.
use slotd.Prelude.{
  ◌≡◌, refl, sym, Bool, true, false, Option, Text, ok, guard, bind-ok, ok-injective, arith,
  SlotdError,
}
use slotd.Config.{AppConfig, has_partition}
use slotd.Job.{unwrap_or}
use slotd.Submit.Directives.{BatchDirectives, or_else}
use slotd.Command.Arguments.{
  ResourceArgs, ResolvedResourceArgs, resolve, check_constraint, directive_of, memory_of, limit_of,
}

guard-ok : (b : Bool) (e : SlotdError) → guard b e ≡ ok tt → b ≡ true
guard-ok true e h = refl
guard-ok false e h = ground arith

-- What a request for resources has to be, however it was put together.
pub record IsPossible (config : AppConfig) (r : ResolvedResourceArgs) : Type 0 where
  pub partition_known : has_partition config r.partition ≡ true
  pub constraint_matched : check_constraint config r.constraint r.partition ≡ ok tt

-- Resources that `resolve` returns are in a partition that the configuration has, and their constraint,
-- where there is one, matches the features of this partition, whichever of the command line, the
-- directives and the defaults the parts come from.
pub resolve-IsPossible :
    (current_dir : Text) (config : AppConfig) (args : ResourceArgs)
    (directives : Option BatchDirectives) (r : ResolvedResourceArgs)
    → resolve current_dir config args directives ≡ ok r
    → IsPossible config r
unfolding resolve
resolve-IsPossible current_dir config args directives r h =
    let partition =
      unwrap_or config.default_partition
        (or_else args.partition (directive_of (λ d. d.partition) directives)) in
    let constraint = or_else args.constraint (directive_of (λ d. d.constraint) directives) in
    let (known, found, h1) = bind-ok (guard (has_partition config partition) _) _ r h in
    let (memory, m, h2) =
      bind-ok (memory_of args.mem (directive_of (λ d. d.mem_mb) directives)) _ r h1 in
    let (matched, c, h3) = bind-ok (check_constraint config constraint partition) _ r h2 in
    let (limit, l, h4) =
      bind-ok (limit_of args.time (directive_of (λ d. d.time_limit_secs) directives)) _ r h3 in
    rw (sym (ok-injective _ r h4)) (record {
      partition_known = guard-ok (has_partition config partition) _ found;
      constraint_matched = c;
    })

-- The parts of resolved resources that need no check.
pub record IsResolvedFrom (current_dir : Text) (config : AppConfig) (args : ResourceArgs)
    (directives : Option BatchDirectives) (r : ResolvedResourceArgs) : Type 0 where
  pub job_name : r.job_name ≡ or_else args.job_name (directive_of (λ d. d.job_name) directives)
  pub partition :
      r.partition
      ≡ unwrap_or config.default_partition
          (or_else args.partition (directive_of (λ d. d.partition) directives))
  pub constraint :
      r.constraint ≡ or_else args.constraint (directive_of (λ d. d.constraint) directives)
  pub cwd :
      r.cwd ≡ unwrap_or current_dir (or_else args.chdir (directive_of (λ d. d.chdir) directives))

pub resolve-IsResolvedFrom :
    (current_dir : Text) (config : AppConfig) (args : ResourceArgs)
    (directives : Option BatchDirectives) (r : ResolvedResourceArgs)
    → resolve current_dir config args directives ≡ ok r
    → IsResolvedFrom current_dir config args directives r
unfolding resolve
resolve-IsResolvedFrom current_dir config args directives r h =
    let partition =
      unwrap_or config.default_partition
        (or_else args.partition (directive_of (λ d. d.partition) directives)) in
    let constraint = or_else args.constraint (directive_of (λ d. d.constraint) directives) in
    let (known, found, h1) = bind-ok (guard (has_partition config partition) _) _ r h in
    let (memory, m, h2) =
      bind-ok (memory_of args.mem (directive_of (λ d. d.mem_mb) directives)) _ r h1 in
    let (matched, c, h3) = bind-ok (check_constraint config constraint partition) _ r h2 in
    let (limit, l, h4) =
      bind-ok (limit_of args.time (directive_of (λ d. d.time_limit_secs) directives)) _ r h3 in
    rw (sym (ok-injective _ r h4))
      (record { job_name = refl; partition = refl; constraint = refl; cwd = refl })
