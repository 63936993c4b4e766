-- ===== src/Export/Laws.antt =====
-- Where an exported key may be found afterwards.
use bridge_remote_signer.Base.{
  Bool-cases, Bytes, Option, Option-cases, Result-cases, [], ap, arith, err, false, inl, inr,
  length, none, ok, refl, some, some_or, ◌++◌, ◌==◌, ◌∙◌, ◌∷◌, ◌≡◌, ◌⊎◌, bytes_eq, nat_eq,
}
use bridge_remote_signer.Text.{hex_encode, hex_decode}
use bridge_remote_signer.Text.Laws.{hex_decode-hex_encode, AreBytes}
use bridge_remote_signer.Signer.Keyring.{
  Record, KeyCodec, secp256k1, other, extract_secp_priv_key_bytes,
}
use bridge_remote_signer.Signer.AtomicWrite.{File}
use bridge_remote_signer.Signer.AtomicWrite.Laws.{write_new_file_atomic_lem}
use bridge_remote_signer.Export.{
  file_not_written, stdout_is_terminal, stdout_failed, extraction_failed, key_lookup_failed,
  Outlets, Outputs, run_export, print_key, write_key_to_file, owner_only, ExportError,
}

-- The record's local secp256k1 key, of 32 bytes.
abbrev pub IsLocalKey : KeyCodec → Record → Bytes → Type 0
IsLocalKey codec entry key =
    (packed : Bytes) × (entry.local ≡ some packed)
    × (codec.unpack_any packed ≡ some (secp256k1 key))
    × (length key ≡ 32)

extract_sound :
    (codec : KeyCodec) (entry : Option Record) (key : Bytes)
    → extract_secp_priv_key_bytes codec entry ≡ ok key
    → (found : Record) × (entry ≡ some found) × IsLocalKey codec found key
unfolding extract_secp_priv_key_bytes
extract_sound codec none key h = ground arith
extract_sound codec (some entry) key h = elim (Option-cases entry.local) [
  | inl e ↦ ground arith
  | inr (packed, e) ↦ elim (Option-cases (codec.unpack_any packed)) [
    | inl f ↦ ground arith
    | inr (other, f) ↦ ground arith
    | inr (secp256k1 k, f) ↦
        let same : k ≡ key = ground arith in
        (entry, refl, (packed, e, f ∙ ap (λ x. some (secp256k1 x)) same, ground arith))
  ]
]

-- The hex and a newline stand in one place: a new file, or a standard output that is no terminal.
abbrev pub IsPlaced : Outlets → Option File → Bytes → Outputs → Type 0
IsPlaced o at_path hex outputs =
    ((outputs.stdout ≡ [])
      × (at_path ≡ none)
      × (outputs.at_path ≡ some (record { contents = hex ++ 10 ∷ []; perm = owner_only })))
    ⊎ ((outputs.stdout ≡ hex ++ 10 ∷ [])
        × (outputs.at_path ≡ at_path)
        × (o.stdout_is_terminal ≡ false))

-- Nothing on a terminal, and no file replaced.
abbrev pub IsDiscreet : Outlets → Option File → Outputs → Type 0
IsDiscreet o at_path outputs =
    ((outputs.stdout ≡ []) ⊎ (o.stdout_is_terminal ≡ false))
    × ((at_path ≡ none) ⊎ (outputs.at_path ≡ at_path))

write_key_to_file_lem :
    (o : Outlets) (at_path : Option File) (hex : Bytes)
    → let (outputs, outcome) = write_key_to_file o at_path hex in
      (((e : ExportError) × (outcome ≡ err e)) ⊎ IsPlaced o at_path hex outputs)
      × IsDiscreet o at_path outputs
unfolding write_key_to_file
write_key_to_file_lem o at_path hex =
    elim (write_new_file_atomic_lem o.fails at_path (hex ++ 10 ∷ []) owner_only) [
      | inl (kept, e, failed, not_sync) ↦
          (inl (file_not_written e, ground arith), (inl refl, inr kept))
      | inr (none_there, made, low, owner, rest) ↦
          (inr (inl (refl, none_there, made)), (inl refl, inl none_there))
    ]

print_key_lem :
    (o : Outlets) (at_path : Option File) (hex : Bytes)
    → let (outputs, outcome) = print_key o at_path hex in
      (((e : ExportError) × (outcome ≡ err e)) ⊎ IsPlaced o at_path hex outputs)
      × IsDiscreet o at_path outputs
unfolding print_key
print_key_lem o at_path hex = elim (Bool-cases o.stdout_is_terminal) [
  | inl e ↦ rw (print_key, e) (inl (stdout_is_terminal, refl), (inl refl, inr refl))
  | inr e ↦ elim (Option-cases o.stdout_cut) [
    | inl f ↦ rw (print_key, e, f) (inr (inr (refl, refl, refl)), (inr refl, inr refl))
    | inr (n, f) ↦ rw (print_key, e, f) (inl (stdout_failed, refl), (inr refl, inr refl))
  ]
]

-- A key that is unpacked is made of bytes.
abbrev pub UnpacksBytes : KeyCodec → Type 0
UnpacksBytes codec =
    (packed key : Bytes) → codec.unpack_any packed ≡ some (secp256k1 key) → AreBytes key

module _ (codec : KeyCodec) (lookup : Option (Option Record)) (o : Outlets)
    (at_path : Option File) where
  abbrev pub ExportOutcome : Bytes → Type 0
  ExportOutcome output_path =
      let (outputs, outcome) = run_export codec lookup o at_path output_path in
      (((e : ExportError) × (outcome ≡ err e))
        ⊎ ((entry : Record) × (key hex : Bytes) × (lookup ≡ some (some entry))
            × IsLocalKey codec entry key
            × (hex_decode hex ≡ some key)
            × IsPlaced o at_path hex outputs))
      × IsDiscreet o at_path outputs

  -- An export that succeeds has put the hex of the record's own key, which decodes to its 32 bytes,
  -- and a newline in one place: a file that was not there before and is the owner's only, or a
  -- standard output that is no terminal. With a terminal and no path nothing is printed, and a file
  -- that was there stays as it was, whatever happens.
  pub run_export-hex_decode : UnpacksBytes codec → (output_path : Bytes) → ExportOutcome output_path
  unfolding run_export
  run_export-hex_decode unpacks output_path =
      elim (Result-cases (some_or key_lookup_failed lookup)) [
        | inl (x, e) ↦ rw (run_export, e) (inl (x, refl), (inl refl, inr refl))
        | inr (entry, e) ↦ elim (Result-cases (extract_secp_priv_key_bytes codec entry)) [
          | inl (x, f) ↦
              rw (run_export, e, f) (inl (extraction_failed x, refl), (inl refl, inr refl))
          | inr (key, f) ↦
              let hex : Bytes = hex_encode key in
              let (found, is_found, local) = extract_sound codec entry key f in
              let decodes : hex_decode hex ≡ some key =
                hex_decode-hex_encode key (unpacks local.0 key local.2) in
              let looked_up : lookup ≡ some (some found) = ground arith in
              elim (Bool-cases (output_path == [])) [
                | inl g ↦
                    let (placed, discreet) = print_key_lem o at_path hex in
                    rw (run_export, e, f, g)
                      (
                        elim placed [
                          | inl (x, k) ↦ inl (x, k)
                          | inr there ↦ inr (found, key, hex, looked_up, local, decodes, there)
                        ],
                        discreet,
                      )
                | inr g ↦
                    let (placed, discreet) = write_key_to_file_lem o at_path hex in
                    rw (run_export, e, f, g)
                      (
                        elim placed [
                          | inl (x, k) ↦ inl (x, k)
                          | inr there ↦ inr (found, key, hex, looked_up, local, decodes, there)
                        ],
                        discreet,
                      )
              ]
        ]
      ]
