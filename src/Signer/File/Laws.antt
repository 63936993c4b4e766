-- ===== src/Signer/File/Laws.antt =====
-- The file backend against the promises of the interface, with what go-ethereum documents.
use bridge_remote_signer.Base.{
  Bytes, Option-cases, Result-cases, [], ap, arith, ascii, inl, inr, length, ok, refl, some, subst,
  sym, take, ℕ, ◌%◌, ◌++◌, ◌+◌, ◌∙◌, ◌∷◌, ◌≡◌, ◌≤◌,
}
use bridge_remote_signer.Signer.SigUtils.{Curve}
use bridge_remote_signer.Signer.SigUtils.Laws.{Recovers, take_prefix}
use bridge_remote_signer.Signer.SigUtils.Slots.{drop-append}
use bridge_remote_signer.Signer.SigUtils.Shape.{IsEthForm}
use bridge_remote_signer.Signer.Keyring.{Surroundings}
use bridge_remote_signer.Signer.Types.{required, optional, RawConfig, Signer}
use bridge_remote_signer.Signer.Contract.{IsBackend}
use bridge_remote_signer.Signer.File.{
  KeyLibrary, FileSigner, add_27, sign, sign_raw, get_public_key, backend, new_file_signer,
  new_file_signer_from_config,
}

-- What `crypto.Sign` documents: r || s || v with v 0 or 1, for which `Ecrecover` gives the key.
abbrev pub SignsForKey : Curve → KeyLibrary → Type 0
SignsForKey c lib =
    (hash sig : Bytes) (k : lib.PrivateKey)
    → lib.sign hash k ≡ some sig
    → (rs : Bytes) × (v : ℕ) × (sig ≡ rs ++ v ∷ [])
      × (length rs ≡ 64)
      × (v ≤ 1)
      × Recovers c hash (lib.compress_pubkey k) rs v

add_27_lem :
    (rs : Bytes) (v : ℕ)
    → length rs ≡ 64
    → v ≤ 1
    → add_27 (rs ++ v ∷ []) ≡ some (rs ++ (v + 27) ∷ [])
unfolding add_27
add_27_lem rs v size bit =
    let small : (v + 27) % 256 ≡ v + 27 = omega arith in
    rw (add_27, drop-append 64 0 rs (v ∷ []) (omega arith), take_prefix 64 rs (v ∷ []) size, small)
      refl

module _ (c : Curve) (sha256 : Bytes → Bytes) (lib : KeyLibrary) (signs : SignsForKey c lib)
    (s : FileSigner lib) where
  sign_answers :
      (msg sig : Bytes)
      → sign sha256 lib s msg ≡ ok sig
      → IsEthForm c (sha256 msg) (lib.compress_pubkey s.private_key) sig
  unfolding sign
  sign_answers msg sig h = elim (Option-cases (lib.sign (sha256 msg) s.private_key)) [
    | inl e ↦ ground arith
    | inr (full, e) ↦
        let (rs, v, laid_out, size, bit, there) = signs (sha256 msg) full s.private_key e in
        let added : add_27 full ≡ some (rs ++ (v + 27) ∷ []) =
          rw laid_out (add_27_lem rs v size bit) in
        (rs, v, ground arith, size, bit, there)
  ]

  sign_raw_answers :
      (msg sig : Bytes)
      → sign_raw sha256 lib s msg ≡ ok sig
      → (length sig ≡ 64)
        × (v : ℕ) × (v ≤ 1)
        × Recovers c msg (lib.compress_pubkey s.private_key) sig v
  unfolding sign_raw
  sign_raw_answers msg sig h = elim (Option-cases (lib.sign msg s.private_key)) [
    | inl e ↦ ground arith
    | inr (full, e) ↦
        let (rs, v, laid_out, size, bit, there) = signs msg full s.private_key e in
        let cut : take 64 full ≡ sig = ground arith in
        let same : rs ≡ sig =
          sym (take_prefix 64 rs (v ∷ []) size) ∙ sym (ap (take 64) laid_out) ∙ cut in
        subst
          (λ xs.
            (length xs ≡ 64)
            × (w : ℕ) × (w ≤ 1)
            × Recovers c msg (lib.compress_pubkey s.private_key) xs w)
          same (size, v, bit, there)
  ]

  backend-IsBackend :
      s.compressed_pub_key ≡ lib.compress_pubkey s.private_key
      → IsBackend c sha256 s.compressed_pub_key (backend sha256 lib s)
  unfolding backend sign sign_raw get_public_key
  backend-IsBackend cached = record {
    key_served = refl;
    sign_refuses = λ msg h. ground arith;
    sign_raw_refuses = λ msg h. ground arith;
    sign_answers = λ msg sig h. rw cached (sign_answers msg sig h);
    sign_raw_answers = λ msg sig h. rw cached (sign_raw_answers msg sig h);
  }

module _ (c : Curve) (sha256 : Bytes → Bytes) (lib : KeyLibrary) (signs : SignsForKey c lib) where
  new_file_signer-caches :
      (env : Surroundings) (dir name pw : Bytes) (s : FileSigner lib)
      → new_file_signer lib env dir name pw ≡ ok s
      → s.compressed_pub_key ≡ lib.compress_pubkey s.private_key
  unfolding new_file_signer
  new_file_signer-caches env dir name pw s h = ground arith

  pub new_file_signer_from_config-IsBackend :
      (env : Surroundings) (raw : RawConfig) (b : Signer)
      → new_file_signer_from_config sha256 lib env raw ≡ ok b
      → (key : Bytes) × IsBackend c sha256 key b
  unfolding new_file_signer_from_config
  new_file_signer_from_config-IsBackend env raw b h =
      elim (Result-cases (required (ascii "keyring_dir") raw)) [
        | inl (x, e) ↦ ground arith
        | inr (dir, e) ↦ elim (Result-cases (required (ascii "key_name") raw)) [
          | inl (x, f) ↦ ground arith
          | inr (name, f) ↦
              let pw : Bytes = optional (ascii "password_file") raw in
              elim (Result-cases (new_file_signer lib env dir name pw)) [
                | inl (x, g) ↦ ground arith
                | inr (s, g) ↦
                    let built : backend sha256 lib s ≡ b = ground arith in
                    (
                      s.compressed_pub_key,
                      subst (IsBackend c sha256 s.compressed_pub_key) built (
                          backend-IsBackend c sha256 lib signs s
                            (new_file_signer-caches env dir name pw s g)),
                    )
              ]
        ]
      ]
