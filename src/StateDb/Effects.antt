-- ===== src/StateDb/Effects.antt =====
-- What the operations of go/state/state_db.go do to what its read methods return.
pub mod Balances
pub mod Slots
pub mod Codes
pub mod Accounts
pub mod Context
pub mod Still
pub mod Total
pub mod Transactions
pub mod Commits
pub mod Sent
pub mod Blocks
pub mod BlockSlots
pub mod Ends
