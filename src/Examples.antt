-- ===== src/Examples.antt =====
-- The program at concrete inputs.
pub mod Setting
pub mod Corpus
pub mod Verdicts
pub mod Deciding
pub mod Delivering
pub mod Ledger
pub mod Progress
pub mod Scc
pub mod Eval
mod Compiling
mod Grounded
mod Starting
