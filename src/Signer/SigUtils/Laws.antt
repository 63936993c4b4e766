-- ===== src/Signer/SigUtils/Laws.antt =====
-- The answer for numbers below the order: r, s or its twin, and v.
use bridge_remote_signer.Base.{
  Bool-cases, Bytes, Option-cases, [], ap, arith, bytes_beq_iff, drop, err, false, inl, inr, length,
  length-append, ltb, ok, pos, refl, replicate, some, subst, sym, take, true, ℕ, ◌++◌, ◌+◌, ◌-◌,
  ◌/◌, ◌<◌, ◌==◌, ◌^◌, ◌∙◌, ◌∷◌, ◌≡◌, ◌≤◌, ◌⊎◌, bytes_eq, nat_eq,
}
use mathlib.Core.List.{append-nil}
use bridge_remote_signer.Signer.BigInt.{big_bytes, set_bytes, minus}
use bridge_remote_signer.Signer.BigInt.Laws.{length-big_bytes}
use bridge_remote_signer.Signer.SigUtils.{
  Curve, candidate, compress, half_n, low_s, not_recovered, recover_v, recover_v_among,
  rs_to_eth_sig, try_v,
}
use bridge_remote_signer.Signer.SigUtils.Slots.{
  word_of, pack_rs_lem, length-padded, set_bytes-word_of, take-append, drop-append,
}

-- What go-ethereum documents: a recovered key is an uncompressed point on the curve.
abbrev pub GivesPoints : Curve → Type 0
GivesPoints c =
    (msg sig point : Bytes)
    → c.ecrecover msg sig ≡ some point
    → (length point ≡ 65) × (key : Bytes) × (compress c point ≡ some key)

-- `Ecrecover` gives the expected key for r || s || v.
abbrev pub Recovers : Curve → Bytes → Bytes → Bytes → ℕ → Type 0
Recovers c msg key rs v =
    (point : Bytes) × (c.ecrecover msg (rs ++ v ∷ []) ≡ some point) × (compress c point ≡ some key)

-- The lower one of s and its twin.
abbrev pub IsLowTwin : Curve → ℕ → ℕ → Type 0
IsLowTwin c s low = (low + low ≤ c.order) × ((low ≡ s) ⊎ (low + s ≡ c.order))

pub record IsEthSignature (c : Curve) (r s : ℕ) (msg key sig : Bytes) : Type 0 where
  pub rs : Bytes
  pub v : ℕ
  pub laid_out : sig ≡ rs ++ (v + 27) ∷ []
  pub rs_length : length rs ≡ 64
  pub r_kept : set_bytes (take 32 rs) ≡ r
  pub s_low : IsLowTwin c s (set_bytes (drop 32 rs))
  pub v_bit : v ≤ 1
  pub recovers : Recovers c msg key rs v
  pub first : (v ≡ 0) ⊎ ¬ Recovers c msg key rs 0

low_s_lem :
    (c : Curve) (s : ℕ) → s < c.order → (m : ℕ) × (low_s c (pos s) ≡ pos m) × IsLowTwin c s m
unfolding low_s minus half_n
low_s_lem c s h = elim (Bool-cases (ltb (c.order / 2) s)) [
  | inl e ↦ (c.order - s, ground arith, (ground arith, inr (ground arith)))
  | inr e ↦ (s, ground arith, (ground arith, inl refl))
]

pub candidate_lem : (rs : Bytes) (v : ℕ) → length rs ≡ 64 → candidate rs v ≡ rs ++ v ∷ []
unfolding candidate
candidate_lem rs v h = rw (take-append 64 0 rs (replicate 64 0) (omega arith), append-nil rs) refl

module _ (c : Curve) (points : GivesPoints c) (msg key rs : Bytes) (size : length rs ≡ 64) where
  try_v_lem :
      (v : ℕ)
      → ((try_v c msg rs key v ≡ ok true) × Recovers c msg key rs v)
        ⊎ ((try_v c msg rs key v ≡ ok false) × ¬ Recovers c msg key rs v)
  unfolding try_v
  try_v_lem v = elim (Option-cases (c.ecrecover msg (rs ++ v ∷ []))) [
    | inl e ↦ inr (rw (try_v, candidate_lem rs v size, e) refl, λ (point, found, _). cc)
    | inr (point, e) ↦
        let (wide, other, squeezed) = points msg (rs ++ v ∷ []) point e in
        elim (Bool-cases (other == key)) [
          | inl same ↦ inl (
            rw (try_v, candidate_lem rs v size, e, wide, squeezed, same) refl,
            (point, e, squeezed ∙ ap some ((bytes_beq_iff other key).0 same)),
          )
          | inr distinct ↦ inr (
            rw (try_v, candidate_lem rs v size, e, wide, squeezed, distinct) refl,
            λ (point', found, fits).
                let it_is : point ≡ point' = cc in
                let no_other : other ≡ key = cc in
                let accepted : (other == key) ≡ true = (bytes_beq_iff other key).1 no_other in cc,
          )
        ]
  ]

  recover_v_lem :
      ((recover_v c msg rs key ≡ ok 0) × Recovers c msg key rs 0)
      ⊎ ((recover_v c msg rs key ≡ ok 1) × Recovers c msg key rs 1 × (¬ Recovers c msg key rs 0))
      ⊎ ((recover_v c msg rs key ≡ err not_recovered)
          × (¬ Recovers c msg key rs 0)
          × ¬ Recovers c msg key rs 1)
  unfolding recover_v recover_v_among
  recover_v_lem = elim (try_v_lem 0) [
    | inl (e, yes_0) ↦ inl (rw (recover_v_among, e) refl, yes_0)
    | inr (e, no_0) ↦ elim (try_v_lem 1) [
      | inl (f, yes_1) ↦ inr (inl (rw (recover_v_among, e, f) refl, yes_1, no_0))
      | inr (f, no_1) ↦ inr (inr (rw (recover_v_among, e, f) refl, no_0, no_1))
    ]
  ]

-- A number below the order fills at most its 32 bytes.
fits_a_word :
    (c : Curve) (n : ℕ) → c.order ≤ 256 ^ 32 → n < c.order → length (big_bytes (pos n)) ≤ 32
fits_a_word c n bounded h = length-big_bytes (pos n) 32 (omega arith)

pub take_prefix : (n : ℕ) (xs ys : Bytes) → length xs ≡ n → take n (xs ++ ys) ≡ xs
take_prefix n xs ys h = rw (take-append n 0 xs ys (omega arith), append-nil xs) refl

-- The two words, laid side by side.
words_lem :
    (r m : ℕ)
    → length (big_bytes (pos r)) ≤ 32
    → length (big_bytes (pos m)) ≤ 32
    → let rs = word_of (pos r) ++ word_of (pos m) in
      (length rs ≡ 64) × (set_bytes (take 32 rs) ≡ r) × (set_bytes (drop 32 rs) ≡ m)
words_lem r m hr hm =
    let wr : Bytes = word_of (pos r) in
    let wm : Bytes = word_of (pos m) in
    let r_width : length wr ≡ 32 = length-padded (big_bytes (pos r)) hr in
    let m_width : length wm ≡ 32 = length-padded (big_bytes (pos m)) hm in
    (
      omega (arith, length-append wr wm),
      rw (take_prefix 32 wr wm r_width) (set_bytes-word_of (pos r)),
      rw (drop-append 32 0 wr wm (omega arith)) (set_bytes-word_of (pos m)),
    )

-- r || s as the loop over v sees it.
abbrev pub rs_of : Curve → ℕ → ℕ → Bytes
rs_of c r s = word_of (pos r) ++ word_of (low_s c (pos s))

abbrev pub EthOutcome : Curve → ℕ → ℕ → Bytes → Bytes → Type 0
EthOutcome c r s msg key =
    let outcome = rs_to_eth_sig c (pos r) (pos s) msg key in
    ((sig : Bytes) × (outcome ≡ ok sig) × IsEthSignature c r s msg key sig)
    ⊎ ((outcome ≡ err not_recovered)
        × (¬ Recovers c msg key (rs_of c r s) 0)
        × ¬ Recovers c msg key (rs_of c r s) 1)

module _ (c : Curve) (points : GivesPoints c) (bounded : c.order ≤ 256 ^ 32) where
  -- Whatever r and s below the order a backend signs with: the answer is r and the lower of s and
  -- its twin, with the v that recovers the key and 27 added, or neither v recovers the key and it is
  -- an error.
  pub rs_to_eth_sig-IsEthSignature :
      (r s : ℕ) → r < c.order → s < c.order → (msg key : Bytes) → EthOutcome c r s msg key
  unfolding rs_to_eth_sig
  rs_to_eth_sig-IsEthSignature r s hr hs msg key =
      let (m, lowered, twin) = low_s_lem c s hs in
      let r_fits = fits_a_word c r bounded hr in
      let m_fits = fits_a_word c m bounded (omega (arith, twin.0)) in
      let rs : Bytes = word_of (pos r) ++ word_of (pos m) in
      let (size, r_there, m_there) = words_lem r m r_fits m_fits in
      let packed = pack_rs_lem c (pos r) (pos m) r_fits m_fits in
      let cut : take 64 (rs ++ 0 ∷ []) ≡ rs = take_prefix 64 rs (0 ∷ []) size in
      let low : IsLowTwin c s (set_bytes (drop 32 rs)) = subst (IsLowTwin c s) (sym m_there) twin in
      elim (recover_v_lem c points msg key rs size) [
        | inl (e, yes_0) ↦ inl (
          rs ++ 27 ∷ [],
          rw (rs_to_eth_sig, lowered, packed, cut, e) refl,
          record {
            rs = rs;
            v = 0;
            laid_out = refl;
            rs_length = size;
            r_kept = r_there;
            s_low = low;
            v_bit = omega arith;
            recovers = yes_0;
            first = inl refl;
          },
        )
        | inr (inl (e, yes_1, no_0)) ↦ inl (
          rs ++ 28 ∷ [],
          rw (rs_to_eth_sig, lowered, packed, cut, e) refl,
          record {
            rs = rs;
            v = 1;
            laid_out = refl;
            rs_length = size;
            r_kept = r_there;
            s_low = low;
            v_bit = omega arith;
            recovers = yes_1;
            first = inr no_0;
          },
        )
        | inr (inr (e, no_0, no_1)) ↦
            inr (rw (rs_to_eth_sig, lowered, packed, cut, e) refl, rw lowered no_0, rw lowered no_1)
      ]
