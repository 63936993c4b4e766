-- ===== src/Server.antt =====
-- The gRPC plane: package server.
pub mod ReplayGuard
pub mod Crypto
pub mod Checkpoint
pub mod BridgeCheckpoint
pub mod Attestation
pub mod Separation
pub mod Registration
pub mod SignTx
pub mod Gateway
pub mod EnabledRpcs
pub mod Queries
pub mod Samples
pub mod Tests
