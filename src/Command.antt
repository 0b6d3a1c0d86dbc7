-- ===== src/Command.antt =====
-- src/command: what the subcommands send to the daemon and print.
pub mod Client
pub mod Arguments
pub mod Helpers
pub mod StartTimes
pub mod JobText
pub mod Sorting
pub mod Listing
pub mod Control
pub mod Session
pub mod Silent
pub mod Acting
pub mod Completing
pub mod Nesting
pub mod Building
pub mod Wait
pub mod Waiting
pub mod Resolving
pub mod Quoting
pub mod ShellWords
pub mod Sbatch
pub mod Allocation
