-- ===== src/Server/Samples.antt =====
-- Concrete stand-ins for the cryptography, for the tests: a digest is the first 32 bytes.
use bridge_remote_signer.Server.Crypto.{
  AbiArg, Crypto, address, uint256, bytes32, dynamic_bytes, text,
}
use bridge_remote_signer.Base.{Bytes, List, Option, [], none, replicate, some, take, ◌++◌, ◌∷◌}

abbrev arg_bytes : AbiArg → Bytes
arg_bytes (address b) = b
arg_bytes (uint256 n) = n ∷ []
arg_bytes (bytes32 b) = b
arg_bytes (dynamic_bytes b) = b
arg_bytes (text b) = b

abbrev concat_args : List AbiArg → Bytes
concat_args [] = []
concat_args (a ∷ args) = arg_bytes a ++ concat_args args

abbrev first32 : Bytes → Bytes
first32 b = take 32 (b ++ replicate 32 0)

abbrev pub crypto : Crypto
crypto = record {
  keccak256 = first32;
  sha256 = first32;
  pack = λ args. some (concat_args args);
  bytes_to_address = λ b. b;
}

abbrev pub sample_signature : Bytes
sample_signature = replicate 64 2

abbrev pub signs : Bytes → Option Bytes
signs digest = some sample_signature

abbrev pub refuses : Bytes → Option Bytes
refuses digest = none
