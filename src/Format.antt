-- ===== src/Format.antt =====
-- src/format: the tables that the listings print, as lists of lines.
pub mod Tokens
pub mod Table
pub mod Squeue
pub mod Sacct
pub mod Sinfo
pub mod Node
pub mod Lines
pub mod Listings
pub mod Names
