-- ===== src/Consensus/ConnKey/Laws.antt =====
-- Runs of starts on one key file.
use bridge_remote_signer.Text.{trim_white_space}
use bridge_remote_signer.Consensus.StateFile.{
  Entry, absent, regular, WriteEnd, write_file, written, not_opened, cut_off,
}
use bridge_remote_signer.Base.{
  All, Bool, Bool-cases, Bytes, List, Option-cases, Result, Result-cases, [], ap, arith, bytes_dec,
  err, false, inl, inr, length, ltb, none, ok, refl, some, subst, suc, sym, take, true, zero, ℕ,
  ◌<◌, ◌∷◌, ◌≡◌, ◌≤◌, ◌⊎◌,
}
use bridge_remote_signer.Consensus.ConnKey.{
  read_failed, marshal_failed, write_failed, bad_raw_key, unrecognized_json, decode_raw, KeyCodec,
  CryptoKeyJson, ConnKeyError, tendermint_type, starts_with_brace, decode_key_json, decode_json,
  load_ed25519_priv_key, gen_or_load_conn_key,
}

-- What encoding/json and encoding/base64 promise: what they encode they decode, and a struct is an
-- object, with no white space around it, and what
-- is cut off before its end is none.
pub record IsKeyCodec (codec : KeyCodec) : Type 0 where
  pub decodes : (b : Bytes) → codec.decode_base64 (codec.encode_base64 b) ≡ some b
  pub unmarshals :
      (k : CryptoKeyJson) (out : Bytes)
      → codec.marshal_indent k ≡ some out
      → codec.unmarshal out ≡ some k
  pub is_object :
      (k : CryptoKeyJson) (out : Bytes)
      → codec.marshal_indent k ≡ some out
      → (trim_white_space out ≡ out) × (starts_with_brace out ≡ true)
  pub cut_short :
      (k : CryptoKeyJson) (out : Bytes) (n : ℕ)
      → codec.marshal_indent k ≡ some out
      → n < length out
      → let cut = trim_white_space (take n out) in
        (cut ≡ []) ⊎ ((starts_with_brace cut ≡ true) × (codec.unmarshal cut ≡ none))
  pub decodes_empty : codec.decode_base64 [] ≡ some []

take_all : (n : ℕ) (xs : Bytes) → length xs ≤ n → take n xs ≡ xs
take_all zero [] h = refl
take_all (suc n) [] h = refl
take_all zero (x ∷ xs) h = ground arith
take_all (suc n) (x ∷ xs) h = ap (x ∷◌) (take_all n xs (omega arith))

-- A run of starts: whether each one's read fails, how its write ends, and the key it would generate.
abbrev pub Starts : Type 0
Starts = List (Bool × WriteEnd × Bytes)

module _ (codec : KeyCodec) where
  -- The keys that starts dial with, one after the other on one file.
  unfoldable pub identities : Starts → Entry → List Bytes
  identities [] entry = []
  identities ((fails, end, fresh) ∷ rest) entry =
      let (entry', outcome) = gen_or_load_conn_key codec fails end fresh entry in
      let later = identities rest entry' in elim outcome [ err e ↦ later | ok key ↦ key ∷ later ]

  -- What the file gives, if anything, is this key.
  abbrev pub Gives : Bytes → Bytes → Type 0
  Gives key b = (k : Bytes) → load_ed25519_priv_key codec (some b) ≡ ok k → k ≡ key

  load-marshal :
      (j : IsKeyCodec codec) (key out : Bytes)
      → codec.marshal_indent (record { type = tendermint_type; value = codec.encode_base64 key })
        ≡ some out
      → Gives key out
  unfolding load_ed25519_priv_key decode_json decode_key_json bytes_dec
  load-marshal j key out h k got =
      let json : CryptoKeyJson = record {
        type = tendermint_type;
        value = codec.encode_base64 key;
      } in
      let (trimmed, brace) = j.is_object json out h in
      let loads : load_ed25519_priv_key codec (some out) ≡ ok key =
        rw (trimmed, brace, decode_json, j.unmarshals json out h, j.decodes key) refl in
      ground arith

  load-cut :
      (j : IsKeyCodec codec) (json : CryptoKeyJson) (key out : Bytes) (n : ℕ)
      → codec.marshal_indent json ≡ some out
      → n < length out
      → Gives key (take n out)
  unfolding load_ed25519_priv_key decode_json decode_raw
  load-cut j json key out n h short k got = elim (j.cut_short json out n h short) [
    | inl emptied ↦
        let nothing : load_ed25519_priv_key codec (some (take n out)) ≡ err bad_raw_key =
          rw (emptied, decode_raw, j.decodes_empty) refl in
        ground arith
    | inr (brace, broken) ↦
        let nothing : load_ed25519_priv_key codec (some (take n out)) ≡ err unrecognized_json =
          rw (brace, decode_json, broken) refl in
        ground arith
  ]

  load_none : load_ed25519_priv_key codec none ≡ err read_failed
  unfolding load_ed25519_priv_key
  load_none = refl

  identities-Gives :
      (key b : Bytes) (rest : Starts)
      → Gives key b
      → All (λ k. k ≡ key) (identities rest (regular b))
  unfolding identities gen_or_load_conn_key
  identities-Gives key b [] g = tt
  identities-Gives key b ((true, end, fresh) ∷ rest) g =
      rw (identities, load_none) (identities-Gives key b rest g)
  identities-Gives key b ((false, end, fresh) ∷ rest) g =
      elim (Result-cases (load_ed25519_priv_key codec (some b))) [
        | inl (x, e) ↦ rw (identities, e) (identities-Gives key b rest g)
        | inr (k, e) ↦ rw (identities, e) (g k e, identities-Gives key b rest g)
      ]

  -- A write that was cut off leaves a file that gives the fresh key or none.
  take-Gives :
      (j : IsKeyCodec codec) (key out : Bytes) (n : ℕ)
      → codec.marshal_indent (record { type = tendermint_type; value = codec.encode_base64 key })
        ≡ some out
      → Gives key (take n out)
  take-Gives j key out n h = elim (Bool-cases (ltb n (length out))) [
    | inl e ↦
        load-cut j (record { type = tendermint_type; value = codec.encode_base64 key }) key out n h
          (ground arith)
    | inr e ↦
        let whole : take n out ≡ out = take_all n out (ground arith) in
        rw whole (load-marshal j key out h)
  ]

  -- A first start that has no file: none afterwards, or one that gives the fresh key or nothing.
  abbrev FirstStart : Bytes → WriteEnd → Type 0
  FirstStart fresh end =
      let outcome = gen_or_load_conn_key codec false end fresh absent in
      ((e : ConnKeyError) × (outcome ≡ (absent, err e)))
      ⊎ ((b : Bytes) × Gives fresh b
          × ((outcome ≡ (regular b, ok fresh))
              ⊎ ((e : ConnKeyError) × (outcome ≡ (regular b, err e)))))

  first_start : (j : IsKeyCodec codec) (fresh : Bytes) (end : WriteEnd) → FirstStart fresh end
  unfolding gen_or_load_conn_key write_file
  first_start j fresh end =
      elim (Option-cases (
        codec.marshal_indent
          (record { type = tendermint_type; value = codec.encode_base64 fresh }))) [
            | inl e ↦ inl (marshal_failed, rw (gen_or_load_conn_key, e) refl)
            | inr (out, e) ↦ elim end as (λ w. FirstStart fresh w) [
              | written ↦
                  inr (out, load-marshal j fresh out e, inl (rw (gen_or_load_conn_key, e) refl))
              | not_opened ↦ inl (write_failed, rw (gen_or_load_conn_key, e) refl)
              | cut_off n ↦ inr (
                take n out,
                take-Gives j fresh out n e,
                inr (write_failed, rw (gen_or_load_conn_key, e) refl),
              )
            ]
          ]

  -- The rest of a run after a start that ended so.
  abbrev proceed : Starts → Entry × Result ConnKeyError Bytes → List Bytes
  proceed rest outcome =
      let later = identities rest outcome.0 in
      elim outcome.1 [ err e ↦ later | ok key ↦ key ∷ later ]

  -- Over any run of starts from no key file, whichever reads and writes fail and wherever a write is
  -- cut off, all the keys that the signer dials with are the same one.
  pub identities_same :
      IsKeyCodec codec
      → (runs : Starts) → (key : Bytes) × All (λ k. k ≡ key) (identities runs absent)
  unfolding identities gen_or_load_conn_key
  identities_same j [] = ([], tt)
  identities_same j ((true, end, fresh) ∷ rest) =
      let (key, same) = identities_same j rest in (key, rw (identities, load_none) same)
  identities_same j ((false, end, fresh) ∷ rest) =
      let Same : Bytes → Entry × Result ConnKeyError Bytes → Type 0 =
        λ key outcome. All (λ k. k ≡ key) (proceed rest outcome) in
      elim (first_start j fresh end) [
        | inl (x, e) ↦
            let (key, same) = identities_same j rest in (key, subst (Same key) (sym e) same)
        | inr (b, gives, inl e) ↦
            (fresh, subst (Same fresh) (sym e) (refl, identities-Gives fresh b rest gives))
        | inr (b, gives, inr (x, e)) ↦
            (fresh, subst (Same fresh) (sym e) (identities-Gives fresh b rest gives))
      ]
