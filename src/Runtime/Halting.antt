-- ===== src/Runtime/Halting.antt =====
-- What the launch of src/runtime/runner_launch.rs computes from texts and tables.
use slotd.Prelude.{
  ℕ, Bool, true, false, List, [], ◌∷◌, Option, none, some, Text, Result, Halts, bind-Halts,
  if◌then◌else◌, arith, lit,
}
use slotd.Strings.{trim, strip_prefix, to_ascii_lowercase}
use slotd.Job.{JobRecord}
use slotd.Store.{Store, allocate_gpu_ids}
use slotd.Runtime.CpuBind.{parse_cpus, sorted_cpus, map_value, bind_value, resolve_cpu_bind_ids}
use slotd.Runtime.Runner.{assigned_gpus}

pub if-Halts {ℓ} :
    {A : Type ℓ} (b : Bool) (m n : Result A) → Halts m → Halts n → Halts (if b then m else n)
if-Halts true m n h k = h
if-Halts false m n h k = k

parse_cpus-Halts : (total : ℕ) (ps : List Text) → Halts (parse_cpus total ps)
unfolding parse_cpus
parse_cpus-Halts total [] = tt
parse_cpus-Halts total (p ∷ ps) = ground (arith, parse_cpus-Halts total ps)

sorted_cpus-Halts : (cs : List ℕ) → Halts (sorted_cpus cs)
unfolding sorted_cpus
sorted_cpus-Halts [] = tt
sorted_cpus-Halts (c ∷ cs) = tt

map_value-Halts : (value : Text) (total : ℕ) (o : Option Text) → Halts (map_value value total o)
unfolding map_value
map_value-Halts value total none = tt
map_value-Halts value total (some list) =
    bind-Halts (parse_cpus total _) sorted_cpus (parse_cpus-Halts total _) sorted_cpus-Halts

pub assigned_gpus-Halts : (job : JobRecord) (s : Store) → Halts (assigned_gpus job s)
unfolding assigned_gpus allocate_gpu_ids
assigned_gpus-Halts job s = ground arith

pub resolve_cpu_bind_ids-Halts :
    (bind : Option Text) (total n : ℕ) → Halts (resolve_cpu_bind_ids bind total n)
unfolding resolve_cpu_bind_ids bind_value
resolve_cpu_bind_ids-Halts none total n = tt
resolve_cpu_bind_ids-Halts (some v) total n = ground (
  arith,
  map_value-Halts (trim v) total (strip_prefix (lit "map_cpu:") (to_ascii_lowercase (trim v))),
)
