-- ===== src/Ledger.antt =====
-- internal/ledger/ledger.go, over an object store in memory that can fail at every call.
pub mod Store
pub mod State
pub mod Names
pub mod Append
pub mod Furthest
pub mod Calm
pub mod Contract
pub mod Refines
