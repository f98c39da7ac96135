-- ===== src/StateDb/Revert.antt =====
-- Proofs about the undo list of go/state/state_db.go.
pub mod View
pub mod Journal
pub mod Caches
pub mod Undoes
pub mod SlotUndoes
pub mod CodeUndoes
pub mod Keeps
pub mod AccountTracks
pub mod AccountKeeps
pub mod StorageTracks
pub mod StorageKeeps
pub mod CodeKeeps
pub mod ContextKeeps
pub mod Calls
pub mod Observe
pub mod Agrees
