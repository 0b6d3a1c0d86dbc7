-- ===== src/Runtime.antt =====
-- src/runtime: the processes that the daemon runs.
mod State
mod CpuBind
mod Endings
mod Runner
mod Control
mod Monitor
mod Recovery
pub mod SlurmEnv
pub mod Keeping
pub mod Kept
pub mod KeptPoll
pub mod Runs
pub mod Halting
pub mod Launching
pub mod EndingLaws
unfoldable pub use State.*
unfoldable pub use CpuBind.*
unfoldable pub use Endings.*
unfoldable pub use Runner.*
unfoldable pub use Control.*
unfoldable pub use Monitor.*
unfoldable pub use Recovery.*
