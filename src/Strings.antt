-- ===== src/Strings.antt =====
-- The functions of Rust's `str` and integer parsing that the program calls. A text is the list of
-- its code points; `trim` and `split_whitespace` use Unicode's White_Space.
mod Defs
mod Numbers
pub mod Debug
pub mod Laws
pub mod Decimal
pub mod Order
unfoldable pub use Defs.*
unfoldable pub use Numbers.*
