-- ===== src/Server/ReplayGuard/Laws.antt =====
-- The guard's file read back, and what one call of the guard does.
use mathlib.Core.List.{reverse, reverse-cons, reverse-append}
use bridge_remote_signer.Net.{has_prefix}
use bridge_remote_signer.Text.{hex_encode, trim_space, u64_limit}
use bridge_remote_signer.Text.Laws.{
  AreBytes, hex_decode-hex_encode, StartsSolid, trim_space_of_solid,
}
use bridge_remote_signer.Server.ReplayGuard.{
  CheckpointReplayGuard, GuardState, JsonCodec, contents, decode_optional_hex,
  new_checkpoint_replay_guard, saved_state, load_json,
}
use bridge_remote_signer.Base.{
  Bytes, Option, [], ap, arith, length, none, ok, refl, some, subst, suc, sym, true, ℕ, ◌++◌, ◌<◌,
  ◌∙◌, ◌∷◌, ◌≡◌, ◌≢◌,
}

-- What the guard relies on of `encoding/json`: a guard state with hex strings and a mark of 64
-- bits is marshalled to an object, and unmarshalled from it unchanged.
pub record IsJson (codec : JsonCodec) : Type 0 where
  pub object :
      (st : GuardState) (blob : Bytes)
      → codec.marshal st ≡ some blob
      → (body : Bytes) × (blob ≡ b'{' ∷ (body ++ b'}' ∷ []))
  pub round_trip :
      (high_water : ℕ) (ckpt sig blob : Bytes)
      → high_water < u64_limit
      → AreBytes ckpt
      → AreBytes sig
      → let st : GuardState = record {
        high_water = high_water;
        checkpoint = hex_encode ckpt;
        signature = hex_encode sig;
      } in
        codec.marshal st ≡ some blob → codec.unmarshal blob ≡ some st

-- A memo is whole or absent.
abbrev pub IsMemo : Option Bytes → Option Bytes → Type 0
IsMemo none none = Unit
IsMemo (some ckpt) (some sig) =
    (length ckpt ≡ 32) × (length sig ≡ 64) × AreBytes ckpt × AreBytes sig
IsMemo _ _ = ⊥

pub record IsGuard (path : Bytes) (g : CheckpointReplayGuard) : Type 0 where
  pub named : path ≢ []
  pub at_path : g.state_path ≡ path
  pub ready : g.loaded ≡ true
  pub small : g.high_water < u64_limit
  pub memo : IsMemo g.signed_checkpoint g.signed_signature

object-solid : (body : Bytes) → trim_space (b'{' ∷ (body ++ b'}' ∷ [])) ≡ b'{' ∷ (body ++ b'}' ∷ [])
object-solid body = trim_space_of_solid (b'{' ∷ (body ++ b'}' ∷ [])) refl (
    let e : reverse (b'{' ∷ (body ++ b'}' ∷ [])) ≡ b'}' ∷ (reverse body ++ b'{' ∷ []) =
      reverse-cons b'{' (body ++ b'}' ∷ []) ∙ rw (reverse-append body (b'}' ∷ [])) in
    subst StartsSolid (sym e) refl)

hex_encode_cons : (x : ℕ) (b : Bytes) → (n : ℕ) × (length (hex_encode (x ∷ b)) ≡ suc n)
unfolding hex_encode
hex_encode_cons x b = (suc (length (hex_encode b)), refl)

decode_optional_hex-encode :
    (b : Bytes) (n : ℕ)
    → length b ≡ suc n
    → AreBytes b
    → decode_optional_hex (hex_encode b) (suc n) ≡ ok (some b)
unfolding decode_optional_hex
decode_optional_hex-encode [] n e v = absurd (omega arith)
decode_optional_hex-encode (x ∷ b) n e v =
    rw (hex_decode-hex_encode (x ∷ b) v, decode_optional_hex) (ground (arith, hex_encode_cons x b))

module _ (codec : JsonCodec) (json : IsJson codec) (path : Bytes) where
  load_json-saved_state :
      (high_water : ℕ) (ckpt sig : Option Bytes) (blob : Bytes)
      → high_water < u64_limit
      → IsMemo ckpt sig
      → codec.marshal (saved_state high_water ckpt sig) ≡ some blob
      → load_json codec path blob
        ≡ ok (record {
          state_path = path;
          high_water = high_water;
          loaded = true;
          signed_checkpoint = ckpt;
          signed_signature = sig;
        })
  unfolding load_json saved_state hex_encode decode_optional_hex
  load_json-saved_state h none none blob small v e =
      rw (json.round_trip h [] [] blob small tt tt e, load_json) refl
  load_json-saved_state h (some c) (some s) blob small v e =
      rw
        (
          json.round_trip h c s blob small v.2 v.3 e,
          load_json,
          decode_optional_hex-encode c 31 v.0 v.2,
          decode_optional_hex-encode s 63 v.1 v.3,
        )
        refl
  load_json-saved_state h none (some s) blob small v e = absurd v
  load_json-saved_state h (some c) none blob small v e = absurd v

  load_object :
      (body : Bytes)
      → path ≢ []
      → let text = b'{' ∷ (body ++ b'}' ∷ []) in
        new_checkpoint_replay_guard codec path (contents text) ≡ load_json codec path text
  unfolding new_checkpoint_replay_guard has_prefix
  load_object body named = rw (object-solid body) (ground arith)

  -- What was persisted is loaded as it was: mark and memo.
  pub load-persist :
      (g : CheckpointReplayGuard) (blob : Bytes)
      → IsGuard path g
      → codec.marshal (saved_state g.high_water g.signed_checkpoint g.signed_signature) ≡ some blob
      → new_checkpoint_replay_guard codec path (contents blob) ≡ ok g
  load-persist g blob v e =
      let (body, shape) = json.object _ blob e in
      let loaded = load_json-saved_state g.high_water _ _ blob v.small v.memo e in
      ap (λ (t : Bytes). new_checkpoint_replay_guard codec path (contents t)) shape
      ∙ load_object body v.named
      ∙ ap (load_json codec path) (sym shape)
      ∙ loaded
      ∙ cc (v.at_path, v.ready)
