-- ===== src/Consensus.antt =====
-- The privval plane: package consensus.
pub mod Types
pub mod Primary
pub mod Host
pub mod Validate
pub mod Handler
pub mod Gate
pub mod Dial
pub mod Plane
pub mod StateFile
pub mod ConnKey
pub mod Tests
