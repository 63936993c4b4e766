-- ===== src/Signer/Backends.antt =====
-- The registry after the init functions of file_signer.go and fortanix_dsm.go, which Go runs in the
-- order of the files' names.
use bridge_remote_signer.Base.{Bytes, Option, [], ascii, none, some}
use bridge_remote_signer.Signer.SigUtils.{Curve}
use bridge_remote_signer.Signer.Types.{Registry, register_backend}
use bridge_remote_signer.Signer.Keyring.{Surroundings}
use bridge_remote_signer.Signer.File.{KeyLibrary, new_file_signer_from_config}
use bridge_remote_signer.Signer.Fortanix.{Dsm, new_fortanix_dsm_signer_from_config}
pub mod Laws

abbrev pub file_backend : Bytes
file_backend = ascii "file"

abbrev pub fortanix_backend : Bytes
fortanix_backend = ascii "fortanixdsm"

module _ (sha256 : Bytes → Bytes) (c : Curve) (lib : KeyLibrary) (env : Surroundings)
    (dsm : Dsm) where
  -- `none` is a panic of `RegisterBackend`.
  unfoldable pub compiled_in : Option Registry
  compiled_in =
      elim (register_backend file_backend (new_file_signer_from_config sha256 lib env) []) [
        | none ↦ none
        | some registry ↦
            register_backend fortanix_backend (new_fortanix_dsm_signer_from_config sha256 c dsm)
              registry
      ]
