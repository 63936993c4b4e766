-- ===== src/Signer.antt =====
-- Package signer: the backends that hold the validator's secp256k1 key (signer/).
pub mod BigInt
pub mod SigUtils
pub mod Types
pub mod Contract
pub mod Fortanix
pub mod Keyring
pub mod File
pub mod Backends
pub mod AtomicWrite
pub mod Address
mod Tests
