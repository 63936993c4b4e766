-- ===== src/Server/Crypto.antt =====
-- What the server takes from go-ethereum, the Cosmos SDK and crypto/sha256: the hashes, the ABI
-- packer, the addresses and the decoders are parameters.
use bridge_remote_signer.Base.{Bytes, List, Option, ℕ}

-- A typed argument of `abi.Arguments.Pack`.
pub data AbiArg : Type 0 where
  address : Bytes → AbiArg
  uint256 : ℕ → AbiArg
  bytes32 : Bytes → AbiArg
  dynamic_bytes : Bytes → AbiArg
  text : Bytes → AbiArg

-- `none` stands for an error, of `abi.NewType` or of `Pack`.
pub record Crypto : Type 0 where
  pub keccak256 : Bytes → Bytes
  pub sha256 : Bytes → Bytes
  pub pack : List AbiArg → Option Bytes
  pub bytes_to_address : Bytes → Bytes
