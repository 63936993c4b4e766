-- ===== src/Signer/Keyring/Reads.antt =====
-- What the reads of a repeating reader give, one after the other.
use bridge_remote_signer.Base.{
  Bool-cases, Bytes, List, [], ap, arith, drop, if◌then◌else◌, inl, inr, leb, length, length-append,
  refl, suc, sym, take, zero, ℕ, ◌++◌, ◌+◌, ◌<◌, ◌∙◌, ◌∷◌, ◌≡◌, ◌≤◌,
}
use bridge_remote_signer.Signer.Keyring.{RepeatingReader, read}

-- The first `n` bytes of what is left of the line and then of the line over and over.
unfoldable pub repeated : ℕ → Bytes → Bytes → Bytes
repeated zero line rest = []
repeated (suc n) line (b ∷ rest) = b ∷ repeated n line rest
repeated (suc n) [] [] = []
repeated (suc n) (b ∷ line) [] = b ∷ repeated n (b ∷ line) line

-- What reads into slices of these sizes give, one after the other.
unfoldable pub reads : RepeatingReader → List ℕ → Bytes
reads r [] = []
reads r (size ∷ sizes) = let (chunk, r') = read r size in chunk ++ reads r' sizes

repeated_wrap : (n : ℕ) (line : Bytes) → repeated n line [] ≡ repeated n line line
unfolding repeated
repeated_wrap zero line = refl
repeated_wrap (suc n) [] = refl
repeated_wrap (suc n) (b ∷ line) = refl

repeated_chunk :
    (line rest more : Bytes) (size : ℕ)
    → more ≡ repeated (length more) line (drop size rest)
    → take size rest ++ more ≡ repeated (length (take size rest ++ more)) line rest
unfolding repeated
repeated_chunk line rest more zero h = h
repeated_chunk line [] more (suc size) h = h
repeated_chunk line (b ∷ rest) more (suc size) h = ap (b ∷◌) (repeated_chunk line rest more size h)

drop_past : (n : ℕ) (xs : Bytes) → length xs ≤ n → drop n xs ≡ []
drop_past zero [] h = refl
drop_past (suc n) [] h = refl
drop_past zero (x ∷ xs) h = ground arith
drop_past (suc n) (x ∷ xs) h = drop_past n xs (omega arith)

drop-drop : (m n k : ℕ) (xs : Bytes) → k ≡ m + n → drop k xs ≡ drop n (drop m xs)
drop-drop zero n k xs h = let same : k ≡ n = omega arith in ap (λ j. drop j xs) same
drop-drop (suc m) n zero xs h = ground arith
drop-drop (suc m) zero (suc k) [] h = refl
drop-drop (suc m) (suc n) (suc k) [] h = refl
drop-drop (suc m) n (suc k) (x ∷ xs) h = drop-drop m n k xs (omega arith)

drop-length-take : (n : ℕ) (xs : Bytes) → drop (length (take n xs)) xs ≡ drop n xs
drop-length-take zero xs = refl
drop-length-take (suc n) [] = refl
drop-length-take (suc n) (x ∷ xs) = drop-length-take n xs

-- Where a read starts, and what is left after it.
unfoldable start_of : RepeatingReader → ℕ
start_of r = if leb (length r.line) r.off then 0 else r.off

left_after :
    (r : RepeatingReader) (size : ℕ)
    → let (chunk, r') = read r size in drop r'.off r'.line ≡ drop size (drop (start_of r) r.line)
unfolding read start_of
left_after r size =
    let start : ℕ = start_of r in
    let rest : Bytes = drop start r.line in
    drop-drop start (length (take size rest)) (start + length (take size rest)) r.line refl
    ∙ drop-length-take size rest

repeated_start :
    (r : RepeatingReader) (n : ℕ)
    → repeated n r.line (drop r.off r.line) ≡ repeated n r.line (drop (start_of r) r.line)
unfolding start_of
repeated_start r n = elim (Bool-cases (leb (length r.line) r.off)) [
  | inl e ↦ rw (e, drop_past r.off r.line (ground arith)) (repeated_wrap n r.line)
  | inr e ↦ rw e refl
]

pub reads_lem :
    (r : RepeatingReader) (sizes : List ℕ)
    → reads r sizes ≡ repeated (length (reads r sizes)) r.line (drop r.off r.line)
unfolding reads repeated read start_of
reads_lem r [] = refl
reads_lem r (size ∷ sizes) =
    let r' : RepeatingReader = (read r size).1 in
    let more : Bytes = reads r' sizes in
    let rest : Bytes = drop (start_of r) r.line in
    let after : more ≡ repeated (length more) r.line (drop size rest) =
      reads_lem r' sizes ∙ ap (repeated (length more) r.line) (left_after r size) in
    repeated_chunk r.line rest more size after
    ∙ sym (repeated_start r (length (take size rest ++ more)))

drop_before :
    (n : ℕ) (xs : Bytes) → n < length xs → (b : ℕ) × (rest : Bytes) × (drop n xs ≡ b ∷ rest)
drop_before n [] h = ground arith
drop_before zero (x ∷ xs) h = (x, xs, refl)
drop_before (suc n) (x ∷ xs) h = drop_before n xs (omega arith)

start_of_inside : (r : RepeatingReader) → 0 < length r.line → start_of r < length r.line
unfolding start_of
start_of_inside r filled = ground arith

-- A read into a slice that is not empty gives a byte at least.
read_gives :
    (r : RepeatingReader) (size : ℕ)
    → 0 < length r.line
    → 0 < size
    → 0 < length (take size (drop (start_of r) r.line))
read_gives r zero filled wanted = ground arith
read_gives r (suc size) filled wanted =
    let (b, rest, e) = drop_before (start_of r) r.line (start_of_inside r filled) in
    rw e (omega arith)

-- How many of the slices are not empty.
abbrev pub filled_slices : List ℕ → ℕ
filled_slices [] = 0
filled_slices (zero ∷ sizes) = filled_slices sizes
filled_slices (suc size ∷ sizes) = suc (filled_slices sizes)

pub reads_progress :
    (r : RepeatingReader) (sizes : List ℕ)
    → 0 < length r.line
    → filled_slices sizes ≤ length (reads r sizes)
unfolding reads read start_of
reads_progress r [] filled = omega arith
reads_progress r (zero ∷ sizes) filled = reads_progress (read r zero).1 sizes filled
reads_progress r (suc size ∷ sizes) filled =
    let r' : RepeatingReader = (read r (suc size)).1 in
    let chunk : Bytes = take (suc size) (drop (start_of r) r.line) in
    omega (
      arith,
      length-append chunk (reads r' sizes),
      read_gives r (suc size) filled (omega arith),
      reads_progress r' sizes filled,
    )
