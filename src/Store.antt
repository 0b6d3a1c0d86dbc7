-- ===== src/Store.antt =====
-- src/store: the jobs table and the operations on it.
mod Table
mod Updates
mod Control
mod Usage
mod Order
mod Filter
mod Creation
mod Reporting
pub mod Claims
pub mod Invariant
pub mod Creations
pub mod Sound
pub mod Current
pub mod Requeue
pub mod Ids
pub mod Gpus
pub mod Steps
pub mod Fields
pub mod Rooms
pub mod Newcomers
pub mod OrderLaws
unfoldable pub use Table.*
unfoldable pub use Updates.*
unfoldable pub use Control.*
unfoldable pub use Usage.*
unfoldable pub use Order.*
unfoldable pub use Filter.*
unfoldable pub use Creation.*
unfoldable pub use Reporting.*
