-- ===== src/Submit.antt =====
-- src/submit/sbatch.rs: array specifications, memory sizes, time limits, output patterns and the
-- `#SBATCH` directives of a batch script.
pub mod ArraySpec
pub mod Limits
pub mod Pattern
pub mod Directives
