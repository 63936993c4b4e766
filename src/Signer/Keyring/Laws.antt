-- ===== src/Signer/Keyring/Laws.antt =====
-- What the keyring reads as its passphrase, and reads again for every prompt.
use bridge_remote_signer.Base.{
  All, Bool-cases, Bytes, List, Option-cases, [], ap, arith, inl, inr, length, length-append, ok,
  refl, some, subst, ℕ, ◌&&◌, ◌++◌, ◌<◌, ◌==◌, ◌||◌, ◌∙◌, ◌∷◌, ◌≡◌, ◌≢◌, ◌≤◌, ◌⊎◌, bytes_eq, nat_eq,
}
use bridge_remote_signer.Signer.Keyring.{
  Surroundings, RepeatingReader, trim_right, group_and_others, build_file_password_reader,
}
use bridge_remote_signer.Signer.Keyring.Reads.{
  repeated, reads, reads_lem, filled_slices, reads_progress,
}

abbrev pub IsLineEnd : ℕ → Type 0
IsLineEnd b = (b ≡ 10) ⊎ (b ≡ 13)

-- The file without the line ends at its end.
abbrev pub IsTrimmed : Bytes → Bytes → Type 0
IsTrimmed data_ password =
    (ends : Bytes) × (data_ ≡ password ++ ends)
    × All IsLineEnd ends
    × ((start : Bytes) (b : ℕ) → password ≡ start ++ b ∷ [] → ¬ IsLineEnd b)

no_last : (start : Bytes) (b : ℕ) → [] ≢ start ++ b ∷ []
no_last [] b h = cc
no_last (x ∷ start) b h = cc

last_lem :
    (b c : ℕ) (rest start : Bytes)
    → b ∷ rest ≡ start ++ c ∷ []
    → ((rest ≡ []) × (b ≡ c)) ⊎ ((start' : Bytes) × (rest ≡ start' ++ c ∷ []))
last_lem b c rest [] h = inl (cc, cc)
last_lem b c rest (x ∷ start) h = inr (start, cc)

trim_right_lem : (data_ : Bytes) → IsTrimmed data_ (trim_right data_)
unfolding trim_right
trim_right_lem [] = ([], refl, tt, λ start b h. absurd (no_last start b h))
trim_right_lem (b ∷ bs) =
    let (ends, split, at_end, last) = trim_right_lem bs in
    elim (Bool-cases (trim_right bs == [] && (b == 10 || b == 13))) [
      | inl e ↦
          let emptied : trim_right bs ≡ [] = ground arith in
          let line_end : IsLineEnd b = ground arith in
          let all_ends : bs ≡ ends = split ∙ ap (◌++ ends) emptied in
          rw e (
            b ∷ ends,
            ap (b ∷◌) all_ends,
            (line_end, at_end),
            λ start c h. absurd (no_last start c h),
          )
      | inr e ↦ rw e (
        ends,
        ap (b ∷◌) split,
        at_end,
        λ start c h. λ line_end. elim (last_lem b c (trim_right bs) start h) [
          | inl (emptied, same) ↦ ground arith
          | inr (start', shorter) ↦ last start' c shorter line_end
        ],
      )
    ]

abbrev pub ReadsPassword : Surroundings → Bytes → RepeatingReader → List ℕ → Type 0
ReadsPassword env path r sizes =
    (perm : ℕ) × (data_ password : Bytes) × (env.stat path ≡ some perm)
    × (group_and_others perm ≡ 0)
    × (env.read_file path ≡ some data_)
    × IsTrimmed data_ password
    × (password ≢ [])
    × (reads r sizes
        ≡ repeated (length (reads r sizes)) (password ++ 10 ∷ []) (password ++ 10 ∷ []))
    × (filled_slices sizes ≤ length (reads r sizes))

-- A password file that is accepted is readable by its owner only, and holds a password that is not
-- empty and does not end in a line end, with line ends after it. Whatever the sizes of the slices,
-- the reads give that password with one newline, over and over, and every read into a slice that is
-- not empty gives a byte at least.
pub build_file_password_reader-reads :
    (env : Surroundings) (path : Bytes) (r : RepeatingReader) (sizes : List ℕ)
    → build_file_password_reader env path ≡ ok r
    → ReadsPassword env path r sizes
unfolding build_file_password_reader
build_file_password_reader-reads env path r sizes h = elim (Option-cases (env.stat path)) [
  | inl e ↦ ground arith
  | inr (perm, e) ↦ elim (Option-cases (env.read_file path)) [
    | inl f ↦ ground arith
    | inr (contents, f) ↦ elim (Bool-cases (group_and_others perm == 0)) [
      | inr g ↦ ground arith
      | inl g ↦ elim (Bool-cases (trim_right contents == [])) [
        | inl k ↦ ground arith
        | inr k ↦
            let password : Bytes = trim_right contents in
            let line : Bytes = password ++ 10 ∷ [] in
            let built : record { line = line; off = 0 } ≡ r = ground arith in
            let filled : 0 < length line = omega (arith, length-append password (10 ∷ [])) in
            (
              perm,
              contents,
              password,
              e,
              ground arith,
              f,
              trim_right_lem contents,
              ground arith,
              subst (λ s. reads s sizes ≡ repeated (length (reads s sizes)) line line) built
                  (reads_lem (record { line = line; off = 0 }) sizes),
              subst (λ s. filled_slices sizes ≤ length (reads s sizes)) built
                  (reads_progress (record { line = line; off = 0 }) sizes filled),
            )
      ]
    ]
  ]
]
