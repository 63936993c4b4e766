-- ===== src/Consensus/ConnKey/Tests.antt =====
-- Three starts without a key file. The stand-in for JSON knows one object.

use bridge_remote_signer.Base.{
  All, Bool, Bool-cases, Bytes, [], ap₂, arith, ascii, bytes_dec, false, if◌then◌else◌, inl, inr,
  length, none, refl, some, subst, suc, take, true, zero, ℕ, ◌&&◌, ◌<◌, ◌==◌, ◌∷◌, ◌≡◌, ◌⊎◌,
  bytes_eq, nat_eq,
}
use bridge_remote_signer.Text.{trim_white_space}
use bridge_remote_signer.Consensus.StateFile.{absent, written, not_opened, write_file}
use bridge_remote_signer.Consensus.ConnKey.{
  KeyCodec, CryptoKeyJson, tendermint_type, starts_with_brace, gen_or_load_conn_key,
  load_ed25519_priv_key, decode_json, decode_key_json,
}
use bridge_remote_signer.Consensus.ConnKey.Laws.{IsKeyCodec, Starts, identities, identities_same}

abbrev secret : Bytes
secret = ascii "secret"

abbrev object : Bytes
object = ascii "{}"

abbrev is_known : CryptoKeyJson → Bool
is_known k = k.type == tendermint_type && k.value == secret

abbrev codec : KeyCodec
codec = record {
  unmarshal =
      λ b. if b == object then some (record { type = tendermint_type; value = secret }) else none;
  marshal_indent = λ k. if is_known k then some object else none;
  decode_base64 = some;
  encode_base64 = λ b. b;
}

marshalled : (k : CryptoKeyJson) (out : Bytes) → codec.marshal_indent k ≡ some out → object ≡ out
marshalled k out h = elim (Bool-cases (is_known k)) [ inl e ↦ ground arith | inr e ↦ ground arith ]

unmarshalled :
    (k : CryptoKeyJson) (out : Bytes)
    → codec.marshal_indent k ≡ some out
    → codec.unmarshal object ≡ some k
unfolding bytes_dec
unmarshalled k out h = elim (Bool-cases (is_known k)) [
  | inl e ↦
      let type_known : tendermint_type ≡ k.type = ground arith in
      let value_known : secret ≡ k.value = ground arith in
      ap₂ (λ t v. some (record { type = t; value = v })) type_known value_known
  | inr e ↦ ground arith
]

object_cut :
    (n : ℕ)
    → n < length object
    → let cut = trim_white_space (take n object) in
      (cut ≡ []) ⊎ ((starts_with_brace cut ≡ true) × (codec.unmarshal cut ≡ none))
unfolding trim_white_space bytes_dec
object_cut zero h = inl refl
object_cut (suc zero) h = inr (refl, refl)
object_cut (suc (suc n)) h = absurd (omega arith)

codec_keeps : IsKeyCodec codec
unfolding trim_white_space bytes_dec
codec_keeps = record {
  decodes = λ b. refl;
  unmarshals = λ k out h.
      subst (λ o. codec.unmarshal o ≡ some k) (marshalled k out h) (unmarshalled k out h);
  is_object = λ k out h.
      subst (λ o. (trim_white_space o ≡ o) × (starts_with_brace o ≡ true)) (marshalled k out h)
        (refl, refl);
  cut_short = λ k out n h.
      subst
        (λ o.
          n < length o
          → let cut = trim_white_space (take n o) in
            (cut ≡ []) ⊎ ((starts_with_brace cut ≡ true) × (codec.unmarshal cut ≡ none)))
        (marshalled k out h) (object_cut n);
  decodes_empty = refl;
}

abbrev three : Starts
three =
    (false, not_opened, secret) ∷ (false, written, secret) ∷ (false, written, ascii "other") ∷ []

two_identities : identities codec three absent ≡ secret ∷ secret ∷ []
unfolding identities gen_or_load_conn_key write_file load_ed25519_priv_key decode_json
    decode_key_json trim_white_space bytes_dec
two_identities = refl

identities_same_example : (key : Bytes) × All (λ k. k ≡ key) (identities codec three absent)
identities_same_example = identities_same codec codec_keeps three
