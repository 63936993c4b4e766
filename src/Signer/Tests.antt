-- ===== src/Signer/Tests.antt =====
-- Runs of the signer package on stand-ins for the curve, the keyring and the disk.
use bridge_remote_signer.Base.{
  Bool, Bool-cases, Bytes, [], arith, ascii, bytes_dec, drop, false, if◌then◌else◌, inl, inr,
  insert, length, lookup, none, ok, pos, refl, replicate, some, subst, ◌++◌, ◌==◌, ◌∷◌, ◌≡◌, ◌⊎◌,
  bytes_eq, nat_eq,
}
use bridge_remote_signer.Signer.BigInt.{big_bytes, digits, minus}
use bridge_remote_signer.Signer.SigUtils.{
  Curve, compress, candidate, rs_to_eth_sig, low_s, half_n, pack_rs, copy_right, recover_v,
  recover_v_among, try_v,
}
use bridge_remote_signer.Signer.SigUtils.Laws.{
  GivesPoints, EthOutcome, rs_to_eth_sig-IsEthSignature,
}
use bridge_remote_signer.Signer.Types.{
  Registry, RawConfig, text, new_signer, get_backend_factory, required, optional, string_option,
  register_backend,
}
use bridge_remote_signer.Signer.Contract.{IsBackend}
use bridge_remote_signer.Signer.Keyring.{
  Surroundings, RepeatingReader, secp256k1, build_file_password_reader, trim_right,
  build_password_reader, extract_secp_priv_key_bytes, read,
}
use bridge_remote_signer.Signer.Keyring.Laws.{ReadsPassword, build_file_password_reader-reads}
use bridge_remote_signer.Signer.Keyring.Reads.{reads}
use bridge_remote_signer.Signer.File.{
  KeyLibrary, FileSigner, backend, new_file_signer, new_file_signer_from_config,
}
use bridge_remote_signer.Signer.File.Laws.{SignsForKey}
use bridge_remote_signer.Signer.Fortanix.{Dsm, new_fortanix_dsm_signer_from_config}
use bridge_remote_signer.Signer.Backends.{compiled_in, file_backend, fortanix_backend}
use bridge_remote_signer.Signer.Backends.Laws.{new_signer-IsBackend}
use bridge_remote_signer.Signer.AtomicWrite.{WriteCall}
use bridge_remote_signer.Signer.AtomicWrite.Laws.{WriteOutcome, write_new_file_atomic_lem}

abbrev point : Bytes
point = 4 ∷ replicate 64 1

abbrev key : Bytes
key = 2 ∷ replicate 32 1

-- Only v = 1 recovers a point.
abbrev curve : Curve
curve = record {
  order = 11;
  ecrecover = λ msg sig. if drop 64 sig == 1 ∷ [] then some point else none;
  marshal_compressed = λ x y. some key;
  unmarshal_signature = λ der. none;
}

curve_points : GivesPoints curve
unfolding compress
curve_points msg sig p h = elim (Bool-cases (drop 64 sig == 1 ∷ [])) [
  | inl e ↦ let same : point ≡ p = ground arith in (subst (λ q. length q ≡ 65) same refl, key, refl)
  | inr e ↦ ground arith
]

high_s_is_flipped :
    rs_to_eth_sig curve (pos 3) (pos 9) [] key
    ≡ ok (replicate 31 0 ++ 3 ∷ [] ++ replicate 31 0 ++ 2 ∷ 28 ∷ [])
unfolding rs_to_eth_sig low_s half_n minus pack_rs copy_right big_bytes digits recover_v
    recover_v_among try_v candidate compress bytes_dec
high_s_is_flipped = refl

rs_to_eth_sig-IsEthSignature_example : EthOutcome curve 3 9 [] key
rs_to_eth_sig-IsEthSignature_example =
    rs_to_eth_sig-IsEthSignature curve curve_points (omega arith) 3 9 (omega arith) (omega arith) []
      key

abbrev environment : Surroundings
environment = record {
  stat = λ path. some 384;
  read_file = λ path. some (ascii "ab" ++ 13 ∷ 10 ∷ []);
  stdin_is_terminal = false;
}

abbrev reader : RepeatingReader
reader = record { line = ascii "ab" ++ 10 ∷ []; off = 0 }

reads_again : reads reader (2 ∷ 4 ∷ 4 ∷ []) ≡ ascii "ab" ++ 10 ∷ [] ++ ascii "ab" ++ 10 ∷ []
unfolding reads read
reads_again = refl

reader_built : build_file_password_reader environment (ascii "pw") ≡ ok reader
unfolding build_file_password_reader trim_right bytes_dec
reader_built = refl

build_file_password_reader-reads_example :
    ReadsPassword environment (ascii "pw") reader (2 ∷ 4 ∷ 0 ∷ 4 ∷ [])
build_file_password_reader-reads_example =
    build_file_password_reader-reads environment (ascii "pw") reader (2 ∷ 4 ∷ 0 ∷ 4 ∷ [])
      reader_built

abbrev library : KeyLibrary
library = record {
  PrivateKey = Bytes;
  to_ecdsa = some;
  compress_pubkey = λ k. key;
  sign = λ hash k. some (replicate 64 7 ++ 1 ∷ []);
  Keyring = Bytes;
  open_keyring = λ dir reader. some dir;
  key_record = λ kr name. some (some (record { local = some name }));
  codec = record { unpack_any = λ packed. some (secp256k1 (replicate 32 5)) };
}

abbrev dsm : Dsm
dsm = record {
  client = λ endpoint api_key. record { get_sobject = λ d. none; sign = λ req. none };
  object_type_ec = ascii "EC";
  curve_secp256k1 = ascii "SecP256K1";
  unmarshal_spki = λ der. none;
}

abbrev raw : RawConfig
raw =
    (ascii "keyring_dir", text (ascii "keys"))
    ∷ (ascii "key_name", text (ascii "validator"))
    ∷ (ascii "password_file", text (ascii "pw"))
    ∷ []

abbrev sha : Bytes → Bytes
sha b = b

library_signs : SignsForKey curve library
unfolding compress bytes_dec
library_signs hash sig k h = (replicate 64 7, 1, cc, refl, omega arith, (point, refl, refl))

abbrev file_signer : FileSigner library
file_signer = record { private_key = replicate 32 5; compressed_pub_key = key }

abbrev registry : Registry
registry =
    (file_backend, new_file_signer_from_config sha library environment)
    ∷ (fortanix_backend, new_fortanix_dsm_signer_from_config sha curve dsm)
    ∷ []

registry_compiled : compiled_in sha curve library environment dsm ≡ some registry
unfolding compiled_in register_backend lookup insert bytes_dec
registry_compiled = refl

signer_opened : new_signer registry file_backend raw ≡ ok (backend sha library file_signer)
unfolding new_signer get_backend_factory lookup bytes_dec new_file_signer_from_config required
    optional string_option new_file_signer build_password_reader build_file_password_reader
    trim_right extract_secp_priv_key_bytes
signer_opened = refl

new_signer-IsBackend_example :
    ((file_backend ≡ file_backend) ⊎ (file_backend ≡ fortanix_backend))
    × (k : Bytes) × IsBackend curve sha k (backend sha library file_signer)
new_signer-IsBackend_example =
    new_signer-IsBackend sha curve library environment dsm library_signs registry file_backend raw
      (backend sha library file_signer) registry_compiled signer_opened

abbrev writes : WriteCall → Bool
writes call = false

write_new_file_atomic_lem_example : WriteOutcome writes none (ascii "key") 384
write_new_file_atomic_lem_example = write_new_file_atomic_lem writes none (ascii "key") 384
