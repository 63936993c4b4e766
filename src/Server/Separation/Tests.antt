-- ===== src/Server/Separation/Tests.antt =====
-- A checkpoint and an attestation, with the words of the ABI.
use bridge_remote_signer.Server.Separation.{
  AnyCollision, Has64Bits, verify_attestation-verify_checkpoint,
}
use bridge_remote_signer.Server.BridgeCheckpoint.Tests.{domain, self_address, request}
use bridge_remote_signer.Base.{arith, bytes_dec, ok, refl, ◌≡◌, ◌≢◌, ◌⊎◌}
use bridge_remote_signer.Server.Checkpoint.{fixed32, word}
use bridge_remote_signer.Server.Attestation.{encode_oracle_attestation, verify_attestation}
use bridge_remote_signer.Server.Tests.{attestation}
use bridge_remote_signer.Server.BridgeCheckpoint.Binding.Tests.{
  abi_crypto, abi_crypto-IsAbi, request-Is64Bit, verified,
}

attestation_verified : verify_attestation abi_crypto attestation ≡ ok attestation.expected_snapshot
unfolding verify_attestation encode_oracle_attestation fixed32 word bytes_dec
attestation_verified = refl

attestation-Has64Bits : Has64Bits attestation
attestation-Has64Bits = record {
  timestamp = omega arith;
  aggregate_power = omega arith;
  previous_timestamp = omega arith;
  next_timestamp = omega arith;
  attestation_timestamp = omega arith;
  last_consensus_timestamp = omega arith;
}

verify_attestation-verify_checkpoint_example :
    (abi_crypto.sha256 attestation.expected_snapshot ≢ abi_crypto.sha256 domain)
    ⊎ AnyCollision abi_crypto request domain attestation attestation.expected_snapshot
verify_attestation-verify_checkpoint_example =
    verify_attestation-verify_checkpoint abi_crypto abi_crypto-IsAbi self_address request
      attestation domain attestation.expected_snapshot request-Is64Bit attestation-Has64Bits
      verified attestation_verified
