-- ===== src/Signer/Backends/Laws.antt =====
-- What the registry with both backends gives.
use bridge_remote_signer.Base.{
  Bool-cases, Bytes, [], arith, bytes_dec, err, if◌then◌else◌, inl, inr, insert, lookup, ok, refl,
  some, subst, sym, ◌==◌, ◌∙◌, ◌∷◌, ◌≡◌, ◌⊎◌, bytes_eq, nat_eq,
}
use bridge_remote_signer.Signer.SigUtils.{Curve}
use bridge_remote_signer.Signer.Types.{
  Registry, RawConfig, Signer, new_signer, register_backend, get_backend_factory,
  available_backends, unknown_backend,
}
use bridge_remote_signer.Signer.Contract.{IsBackend}
use bridge_remote_signer.Signer.Keyring.{Surroundings}
use bridge_remote_signer.Signer.File.{KeyLibrary, new_file_signer_from_config}
use bridge_remote_signer.Signer.File.Laws.{SignsForKey, new_file_signer_from_config-IsBackend}
use bridge_remote_signer.Signer.Fortanix.{Dsm, new_fortanix_dsm_signer_from_config}
use bridge_remote_signer.Signer.Fortanix.Laws.{new_fortanix_dsm_signer_from_config-IsBackend}
use bridge_remote_signer.Signer.Backends.{file_backend, fortanix_backend, compiled_in}

module _ (sha256 : Bytes → Bytes) (c : Curve) (lib : KeyLibrary) (env : Surroundings)
    (dsm : Dsm) where
  registry : Registry
  registry =
      (file_backend, new_file_signer_from_config sha256 lib env)
      ∷ (fortanix_backend, new_fortanix_dsm_signer_from_config sha256 c dsm)
      ∷ []

  compiled_in_lem : compiled_in sha256 c lib env dsm ≡ some registry
  unfolding compiled_in register_backend registry lookup insert bytes_dec
  compiled_in_lem = refl

  new_signer_lem :
      (name : Bytes) (raw : RawConfig)
      → new_signer registry name raw ≡ (
          if file_backend == name
          then new_file_signer_from_config sha256 lib env raw
          else if fortanix_backend == name
          then new_fortanix_dsm_signer_from_config sha256 c dsm raw
          else err (unknown_backend (file_backend ∷ fortanix_backend ∷ [])))
  unfolding new_signer get_backend_factory registry lookup available_backends
  new_signer_lem name raw = ground arith

  new_signer_known :
      (name : Bytes) (raw : RawConfig) (s : Signer)
      → new_signer registry name raw ≡ ok s
      → (name ≡ file_backend) ⊎ (name ≡ fortanix_backend)
  new_signer_known name raw s h = let shown = sym (new_signer_lem name raw) ∙ h in ground arith

  new_signer_sound :
      SignsForKey c lib
      → (name : Bytes) (raw : RawConfig) (s : Signer) → new_signer registry name raw ≡ ok s
      → (key : Bytes) × IsBackend c sha256 key s
  new_signer_sound signs name raw s h =
      let shown = sym (new_signer_lem name raw) ∙ h in
      elim (Bool-cases (file_backend == name)) [
        | inl e ↦ new_file_signer_from_config-IsBackend c sha256 lib signs env raw s (ground arith)
        | inr e ↦ elim (Bool-cases (fortanix_backend == name)) [
          | inl f ↦ new_fortanix_dsm_signer_from_config-IsBackend sha256 c dsm raw s (ground arith)
          | inr f ↦ ground arith
        ]
      ]

  -- The registry of a start that did not panic gives signers under the names of the two backends
  -- only, and whatever signer a configuration gives serves one key, signs messages of 32 bytes only,
  -- and gives only signatures that recover that key.
  pub new_signer-IsBackend :
      SignsForKey c lib
      → (registry : Registry) (name : Bytes) (raw : RawConfig) (s : Signer)
      → compiled_in sha256 c lib env dsm ≡ some registry
      → new_signer registry name raw ≡ ok s
      → ((name ≡ file_backend) ⊎ (name ≡ fortanix_backend))
        × (key : Bytes) × IsBackend c sha256 key s
  new_signer-IsBackend signs reg name raw s compiled h =
      let both : reg ≡ registry = cc (compiled, compiled_in_lem) in
      let known : new_signer registry name raw ≡ ok s =
        subst (λ r. new_signer r name raw ≡ ok s) both h in
      let (key, keeps) = new_signer_sound signs name raw s known in
      (new_signer_known name raw s known, key, keeps)
