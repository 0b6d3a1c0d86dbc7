-- ===== src/Examples.antt =====
-- Runs of the model at concrete inputs: a machine with four processors and two GPUs, and texts.
mod Data
mod Machine
mod Texts
mod Commands
pub mod Sessions
