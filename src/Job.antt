-- ===== src/Job.antt =====
-- src/model/job.rs and src/model/display.rs: the job record, its states and their names.
mod Defs
pub mod Names
pub mod Display
unfoldable pub use Defs.*
