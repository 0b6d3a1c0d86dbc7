-- ===== src/Format/Node.antt =====
-- The row that `sinfo -N` shows for the node: `build_sinfo_node_rows` of src/format/sinfo.rs.
use slotd.Prelude.{
  ℕ, ◌%◌, ◌^◌, Bool, ◌&&◌, not, List, [], ◌∷◌, ◌++◌, map, keep, any, Text, lit, if◌then◌else◌, max,
}
use slotd.Strings.{join, text_eq, text_lt, split, trim, is_empty}
use slotd.Job.{PartitionInfo}
use slotd.Format.Sinfo.{NodeSinfoRow, partition_text}
use slotd.Prelude.Sums.{sum_by}

-- A `BTreeSet` of texts: sorted, each once.
set_insert : Text → List Text → List Text
unfolding text_eq text_lt
set_insert t [] = t ∷ []
set_insert t (u ∷ us) =
    let rest = set_insert t us in
    if text_eq t u then u ∷ us else if text_lt t u then t ∷ u ∷ us else u ∷ rest

unfoldable pub text_set : List Text → List Text
unfolding set_insert
text_set [] = []
text_set (t ∷ ts) = set_insert t (text_set ts)

-- `partition.features.split(',').map(str::trim)` of each, without empty ones.
all_features : List PartitionInfo → List Text
unfolding split trim is_empty keep
all_features [] = []
all_features (p ∷ ps) =
    keep (λ f. not (is_empty f)) (map trim (split b',' p.features)) ++ all_features ps

-- `max().unwrap_or(0)`, and `sum()`, which wraps.
largest : (PartitionInfo → ℕ) → List PartitionInfo → ℕ
largest f [] = 0
largest f (p ∷ ps) = max (f p) (largest f ps)

total_u32 : (PartitionInfo → ℕ) → List PartitionInfo → ℕ
unfolding sum_by
total_u32 f ps = sum_by f ps % 2 ^ 32

total_u64 : (PartitionInfo → ℕ) → List PartitionInfo → ℕ
unfolding sum_by
total_u64 f ps = sum_by f ps % 2 ^ 64

first_gres : List PartitionInfo → Text
unfolding text_eq lit
first_gres [] = lit "N/A"
first_gres (p ∷ ps) =
    let rest = first_gres ps in if text_eq p.gres_used (lit "N/A") then rest else p.gres_used

in_state : Text → List PartitionInfo → Bool
unfolding any text_eq
in_state state = any (λ p. text_eq p.state state)

unfoldable pub node_state : List PartitionInfo → Text
unfolding in_state lit
node_state ps =
    if in_state (lit "mix") ps
    then lit "mix"
    else if in_state (lit "alloc") ps && in_state (lit "idle") ps
    then lit "mix"
    else if in_state (lit "alloc") ps
    then lit "alloc"
    else lit "idle"

unfoldable pub build_sinfo_node_rows : (default : Text) → List PartitionInfo → List NodeSinfoRow
unfolding node_state first_gres total_u32 total_u64 largest all_features text_set join
    partition_text lit
build_sinfo_node_rows default [] = []
build_sinfo_node_rows default (first ∷ others) =
    let ps = first ∷ others in
    record {
      partitions = join (lit ",") (map (partition_text default) ps);
      hostname = first.hostname;
      state = node_state ps;
      gres_used = first_gres ps;
      features = join (lit ",") (text_set (all_features ps));
      total_cpus = largest (λ p. p.total_cpus) ps;
      allocated_cpus = total_u32 (λ p. p.allocated_cpus) ps;
      total_memory_mb = largest (λ p. p.total_memory_mb) ps;
      allocated_memory_mb = total_u64 (λ p. p.allocated_memory_mb) ps;
      total_gpus = largest (λ p. p.total_gpus) ps;
      allocated_gpus = total_u32 (λ p. p.allocated_gpus) ps;
      running_jobs = total_u64 (λ p. p.running_jobs) ps;
      pending_jobs = total_u64 (λ p. p.pending_jobs) ps;
    }
    ∷ []
