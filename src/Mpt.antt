-- ===== src/Mpt.antt =====
-- The parts of database/mpt.
pub mod NodeId
pub mod Nibble
pub mod Node
pub mod Path
