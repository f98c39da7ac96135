-- ===== src/StateDb.antt =====
-- go/state/state_db.go: the state database with its transaction journal.
pub mod Types
pub mod Undo
pub mod Accounts
pub mod Storage
pub mod Code
pub mod Context
pub mod Contracts
pub mod Calls
pub mod Revert
pub mod Transaction
pub mod Block
pub mod Create
pub mod Bulk
pub mod Effects
pub mod Tests
pub mod EffectTests
