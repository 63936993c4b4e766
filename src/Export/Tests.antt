-- ===== src/Export/Tests.antt =====
-- An export to a new file.
use bridge_remote_signer.Base.{
  Bytes, Option, [], arith, ascii, false, none, replicate, some, subst, true, ◌≡◌,
}
use bridge_remote_signer.Text.Laws.{AreBytes}
use bridge_remote_signer.Signer.Keyring.{Record, KeyCodec, secp256k1}
use bridge_remote_signer.Export.{Outlets}
use bridge_remote_signer.Export.Laws.{ExportOutcome, UnpacksBytes, run_export-hex_decode}

abbrev key : Bytes
key = replicate 32 5

abbrev codec : KeyCodec
codec = record { unpack_any = λ packed. some (secp256k1 key) }

abbrev outlets : Outlets
outlets = record { stdout_is_terminal = true; stdout_cut = none; fails = λ call. false }

key_bytes : AreBytes key
key_bytes = omega arith

codec_unpacks : UnpacksBytes codec
codec_unpacks packed k h = let same : key ≡ k = ground arith in subst AreBytes same key_bytes

abbrev entry : Option (Option Record)
entry = some (some (record { local = some [] }))

run_export-hex_decode_example : ExportOutcome codec entry outlets none (ascii "out")
run_export-hex_decode_example =
    run_export-hex_decode codec entry outlets none codec_unpacks (ascii "out")
