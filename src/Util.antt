-- ===== src/Util.antt =====
-- src/util: times, signals and environments.
mod Calendar
pub mod CalendarLaws
pub mod Epoch
pub mod Time
pub mod Signals
pub mod Env
unfoldable pub use Calendar.*
pub mod EnvSort
pub mod EnvLaws
pub mod EnvMeaning
