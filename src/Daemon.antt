-- ===== src/Daemon.antt =====
-- src/runtime/daemon.rs: the requests that the daemon serves, and the scheduler.
mod Fit
mod Dependency
mod Schedule
mod Requests
pub mod Capacity
pub mod Dependencies
pub mod AtOnce
pub mod Safety
pub mod Halting
pub mod Rounds
pub mod Bare
pub mod Stays
pub mod Settled
unfoldable pub use Fit.*
unfoldable pub use Dependency.*
unfoldable pub use Schedule.*
unfoldable pub use Requests.*
