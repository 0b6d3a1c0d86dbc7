-- ===== src/Format/Sinfo.antt =====
-- src/format/sinfo.rs: the fields of `sinfo` and its tables.
use slotd.Prelude.{
  ℕ, Bool, true, false, List, [], ◌∷◌, ◌++◌, map, Option, none, some, Text, lit, if◌then◌else◌,
}
use slotd.Strings.{text_eq, text_case, char_case, contains_char, show_nat}
use slotd.Job.{Parsed, parsed, PartitionInfo}
use slotd.Format.Tokens.{parse_names, parse_codes}
use slotd.Format.Table.{TableColumn, print_table}

pub data SinfoField : Type 0 where
  partition hostnames state gres_used features cpus cpus_load memory memory_allocated gpus
        gpus_allocated running_jobs pending_jobs :
      SinfoField

unfoldable pub header : SinfoField → Text
unfolding lit
header SinfoField.partition = lit "PARTITION"
header SinfoField.hostnames = lit "HOSTNAMES"
header SinfoField.state = lit "STATE"
header SinfoField.gres_used = lit "GRES_USED"
header SinfoField.features = lit "FEATURES"
header SinfoField.cpus = lit "CPUS"
header SinfoField.cpus_load = lit "CPU_ALLOC"
header SinfoField.memory = lit "MEMORY"
header SinfoField.memory_allocated = lit "MEM_ALLOC"
header SinfoField.gpus = lit "GPUS"
header SinfoField.gpus_allocated = lit "GPU_ALLOC"
header SinfoField.running_jobs = lit "RUNNING"
header SinfoField.pending_jobs = lit "PENDING"

unfoldable pub width : SinfoField → ℕ
width SinfoField.partition = 10
width SinfoField.hostnames = 15
width SinfoField.state = 5
width SinfoField.gres_used = 25
width SinfoField.features = 24
width SinfoField.cpus = 6
width SinfoField.cpus_load = 9
width SinfoField.memory = 10
width SinfoField.memory_allocated = 10
width SinfoField.gpus = 6
width SinfoField.gpus_allocated = 9
width SinfoField.running_jobs = 7
width SinfoField.pending_jobs = 7

unfoldable pub right_align : SinfoField → Bool
right_align SinfoField.partition = false
right_align SinfoField.hostnames = false
right_align SinfoField.state = false
right_align SinfoField.gres_used = false
right_align SinfoField.features = false
right_align SinfoField.cpus = true
right_align SinfoField.cpus_load = true
right_align SinfoField.memory = true
right_align SinfoField.memory_allocated = true
right_align SinfoField.gpus = true
right_align SinfoField.gpus_allocated = true
right_align SinfoField.running_jobs = true
right_align SinfoField.pending_jobs = true

pub record NodeSinfoRow : Type 0 where
  pub partitions : Text
  pub hostname : Text
  pub state : Text
  pub gres_used : Text
  pub features : Text
  pub total_cpus : ℕ
  pub allocated_cpus : ℕ
  pub total_memory_mb : ℕ
  pub allocated_memory_mb : ℕ
  pub total_gpus : ℕ
  pub allocated_gpus : ℕ
  pub running_jobs : ℕ
  pub pending_jobs : ℕ

-- The default partition has a star.
unfoldable pub partition_text : (default : Text) → PartitionInfo → Text
unfolding text_eq lit
partition_text default part = if text_eq part.name default then part.name ++ lit "*" else part.name

unfoldable pub render : (default : Text) → PartitionInfo → SinfoField → Text
unfolding partition_text show_nat lit
render default part SinfoField.partition = partition_text default part
render default part SinfoField.hostnames = part.hostname
render default part SinfoField.state = part.state
render default part SinfoField.gres_used = part.gres_used
render default part SinfoField.features = part.features
render default part SinfoField.cpus = show_nat part.total_cpus
render default part SinfoField.cpus_load = show_nat part.allocated_cpus
render default part SinfoField.memory = show_nat part.total_memory_mb ++ lit "M"
render default part SinfoField.memory_allocated = show_nat part.allocated_memory_mb ++ lit "M"
render default part SinfoField.gpus = show_nat part.total_gpus
render default part SinfoField.gpus_allocated = show_nat part.allocated_gpus
render default part SinfoField.running_jobs = show_nat part.running_jobs
render default part SinfoField.pending_jobs = show_nat part.pending_jobs

unfoldable pub render_node : NodeSinfoRow → SinfoField → Text
unfolding show_nat lit
render_node row SinfoField.partition = row.partitions
render_node row SinfoField.hostnames = row.hostname
render_node row SinfoField.state = row.state
render_node row SinfoField.gres_used = row.gres_used
render_node row SinfoField.features = row.features
render_node row SinfoField.cpus = show_nat row.total_cpus
render_node row SinfoField.cpus_load = show_nat row.allocated_cpus
render_node row SinfoField.memory = show_nat row.total_memory_mb ++ lit "M"
render_node row SinfoField.memory_allocated = show_nat row.allocated_memory_mb ++ lit "M"
render_node row SinfoField.gpus = show_nat row.total_gpus
render_node row SinfoField.gpus_allocated = show_nat row.allocated_gpus
render_node row SinfoField.running_jobs = show_nat row.running_jobs
render_node row SinfoField.pending_jobs = show_nat row.pending_jobs

unfoldable pub columns_of : List SinfoField → List TableColumn
unfolding header width right_align
columns_of [] = []
columns_of (f ∷ fs) =
    record { header = header f; width = width f; right_align = right_align f } ∷ columns_of fs

abbrev pub field_names : List (Text × SinfoField)
field_names =
    (lit "partition", SinfoField.partition)
    ∷ (lit "hostnames", SinfoField.hostnames)
    ∷ (lit "hostname", SinfoField.hostnames)
    ∷ (lit "nodelist", SinfoField.hostnames)
    ∷ (lit "state", SinfoField.state)
    ∷ (lit "features", SinfoField.features)
    ∷ (lit "cpus", SinfoField.cpus)
    ∷ (lit "cpu_alloc", SinfoField.cpus_load)
    ∷ (lit "cpusload", SinfoField.cpus_load)
    ∷ (lit "cpualloc", SinfoField.cpus_load)
    ∷ (lit "memory", SinfoField.memory)
    ∷ (lit "mem", SinfoField.memory)
    ∷ (lit "mem_alloc", SinfoField.memory_allocated)
    ∷ (lit "memoryallocated", SinfoField.memory_allocated)
    ∷ (lit "memalloc", SinfoField.memory_allocated)
    ∷ (lit "gpus", SinfoField.gpus)
    ∷ (lit "gpu_alloc", SinfoField.gpus_allocated)
    ∷ (lit "gpusallocated", SinfoField.gpus_allocated)
    ∷ (lit "gpualloc", SinfoField.gpus_allocated)
    ∷ (lit "running", SinfoField.running_jobs)
    ∷ (lit "runningjobs", SinfoField.running_jobs)
    ∷ (lit "pending", SinfoField.pending_jobs)
    ∷ (lit "pendingjobs", SinfoField.pending_jobs)
    ∷ (lit "gres_used", SinfoField.gres_used)
    ∷ (lit "gresused", SinfoField.gres_used)
    ∷ []

abbrev field_codes : List (ℕ × SinfoField)
field_codes =
    (b'P', SinfoField.partition)
    ∷ (b'N', SinfoField.hostnames)
    ∷ (b't', SinfoField.state)
    ∷ (b'T', SinfoField.state)
    ∷ (b'f', SinfoField.features)
    ∷ (b'G', SinfoField.gres_used)
    ∷ []

parse_percent_sinfo_fields : Text → Parsed (List SinfoField)
unfolding parse_codes char_case lit
parse_percent_sinfo_fields =
    parse_codes (char_case field_codes) (lit "unsupported sinfo format code: %")

unfoldable pub parse_sinfo_fields : Option Text → Bool → Parsed (List SinfoField)
unfolding parse_percent_sinfo_fields parse_names text_case contains_char lit
parse_sinfo_fields none true = parsed (
    SinfoField.partition ∷ SinfoField.hostnames ∷ SinfoField.state ∷ SinfoField.features
    ∷ SinfoField.cpus ∷ SinfoField.cpus_load ∷ SinfoField.memory ∷ SinfoField.memory_allocated
    ∷ SinfoField.gpus ∷ SinfoField.gpus_allocated ∷ SinfoField.running_jobs
    ∷ SinfoField.pending_jobs ∷ SinfoField.gres_used ∷ [])
parse_sinfo_fields none false = parsed (
    SinfoField.partition ∷ SinfoField.hostnames ∷ SinfoField.state ∷ SinfoField.features
    ∷ SinfoField.gres_used ∷ [])
parse_sinfo_fields (some spec) long =
    if contains_char b'%' spec
    then parse_percent_sinfo_fields spec
    else parse_names (text_case field_names) (lit "unsupported sinfo field: ") spec

unfoldable pub print_sinfo :
    (default : Text) → List PartitionInfo → List SinfoField → (noheader : Bool) → Option (List Text)
unfolding render columns_of print_table
print_sinfo default partitions fields noheader =
    print_table (columns_of fields) (map (λ part. map (render default part) fields) partitions)
      noheader

unfoldable pub print_sinfo_nodes :
    List NodeSinfoRow → List SinfoField → (noheader : Bool) → Option (List Text)
unfolding render_node columns_of print_table
print_sinfo_nodes rows fields noheader =
    print_table (columns_of fields) (map (λ row. map (render_node row) fields) rows) noheader
