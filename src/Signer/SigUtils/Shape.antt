-- ===== src/Signer/SigUtils/Shape.antt =====
-- The shape of every answer, whatever numbers the backend signed with.
use bridge_remote_signer.Base.{
  >>=-eq-ok, Any, Bool-cases, Bytes, List, Option-cases, Result-cases, [], ap, arith, bytes_beq_iff,
  drop, false, inl, inr, leb, length, length-append, length-take, ok, replicate, some, subst, suc,
  sym, take, true, zero, ℕ, ℤ, ◌++◌, ◌+◌, ◌-◌, ◌==◌, ◌>>=◌, ◌∙◌, ◌∷◌, ◌≡◌, ◌≤◌, bytes_eq, nat_eq,
}
use bridge_remote_signer.Signer.BigInt.{big_bytes}
use bridge_remote_signer.Signer.SigUtils.{
  Curve, candidate, compress, copy_right, pack_rs, recover_v_among, try_v, der_to_eth_sig,
  rs_to_eth_sig, parse_der_signature, recover_v, low_s,
}
use bridge_remote_signer.Signer.SigUtils.Laws.{Recovers, candidate_lem}

-- r || s || v with v 27 or 28, and the key recovered by it.
abbrev pub IsEthForm : Curve → Bytes → Bytes → Bytes → Type 0
IsEthForm c msg key sig =
    (rs : Bytes) × (v : ℕ) × (sig ≡ rs ++ (v + 27) ∷ [])
    × (length rs ≡ 64)
    × (v ≤ 1)
    × Recovers c msg key rs v

length-drop : (n : ℕ) (xs : Bytes) → length (drop n xs) ≡ length xs - n
length-drop zero xs = omega arith
length-drop (suc n) [] = omega arith
length-drop (suc n) (x ∷ xs) = omega (arith, length-drop n xs)

length-copy_right :
    (dst src out : Bytes) (end : ℕ)
    → end ≤ length dst
    → copy_right dst end src ≡ some out
    → length out ≡ length dst
unfolding copy_right
length-copy_right dst src out end fits h = elim (Bool-cases (leb (length src) end)) [
  | inr e ↦ ground arith
  | inl e ↦
      let left : Bytes = take (end - length src) dst in
      let made : left ++ src ++ drop end dst ≡ out = ground arith in
      rw
        (
          sym made,
          length-append (left ++ src) (drop end dst),
          length-append left src,
          length-take (end - length src) dst,
          length-drop end dst,
        )
        (ground arith)
]

length-pack_rs : (c : Curve) (r s : ℤ) (sig : Bytes) → pack_rs c r s ≡ ok sig → length sig ≡ 65
unfolding pack_rs
length-pack_rs c r s sig h = elim (Option-cases (copy_right (replicate 65 0) 32 (big_bytes r))) [
  | inl e ↦ ground arith
  | inr (with_r, e) ↦ elim (Option-cases (copy_right with_r 64 (big_bytes s))) [
    | inl f ↦ ground arith
    | inr (out, f) ↦
        let width : length with_r ≡ 65 =
          length-copy_right (replicate 65 0) (big_bytes r) with_r 32 (omega arith) e in
        let same : out ≡ sig = ground arith in
        rw (sym same, length-copy_right with_r (big_bytes s) out 64 (omega arith) f) width
  ]
]

module _ (c : Curve) (msg key rs : Bytes) (size : length rs ≡ 64) where
  try_v-Recovers : (v : ℕ) → try_v c msg rs key v ≡ ok true → Recovers c msg key rs v
  unfolding try_v
  try_v-Recovers v h = elim (Option-cases (c.ecrecover msg (candidate rs v))) [
    | inl e ↦ ground arith
    | inr (point, e) ↦ elim (Option-cases (compress c point)) [
      | inl f ↦ ground arith
      | inr (other, f) ↦
          let same : (other == key) ≡ true = ground arith in
          (
            point,
            sym (ap (c.ecrecover msg) (candidate_lem rs v size)) ∙ e,
            f ∙ ap some ((bytes_beq_iff other key).0 same),
          )
    ]
  ]

  recover_v_among-Recovers :
      (v : ℕ) (vs : List ℕ)
      → recover_v_among c vs msg rs key ≡ ok v
      → Any (λ w. v ≡ w) vs × Recovers c msg key rs v
  unfolding recover_v_among
  recover_v_among-Recovers v [] h = ground arith
  recover_v_among-Recovers v (w ∷ vs) h = elim (Result-cases (try_v c msg rs key w)) [
    | inl (x, e) ↦ ground arith
    | inr (true, e) ↦
        let same : w ≡ v = ground arith in
        (inl (sym same), subst (Recovers c msg key rs) same (try_v-Recovers w e))
    | inr (false, e) ↦
        let (found, there) = recover_v_among-Recovers v vs (ground arith) in (inr found, there)
  ]

rs_to_eth_sig-IsEthForm :
    (c : Curve) (r s : ℤ) (msg key sig : Bytes)
    → rs_to_eth_sig c r s msg key ≡ ok sig
    → IsEthForm c msg key sig
unfolding rs_to_eth_sig recover_v
rs_to_eth_sig-IsEthForm c r s msg key sig h =
    let (packed, next, e) =
      >>=-eq-ok (pack_rs c r (low_s c s))
        (λ p. recover_v c msg (take 64 p) key >>= (λ v. ok (take 64 p ++ (v + 27) ∷ []))) h in
    let rs : Bytes = take 64 packed in
    let size : length rs ≡ 64 =
      omega (arith, length-take 64 packed, length-pack_rs c r (low_s c s) packed e) in
    let (v, done, f) = >>=-eq-ok (recover_v c msg rs key) (λ v. ok (rs ++ (v + 27) ∷ [])) next in
    let (among, there) = recover_v_among-Recovers c msg key rs size v (0 ∷ 1 ∷ []) f in
    (rs, v, ground arith, size, ground arith, there)

pub der_to_eth_sig-IsEthForm :
    (c : Curve) (der msg key sig : Bytes)
    → der_to_eth_sig c der msg key ≡ ok sig
    → IsEthForm c msg key sig
unfolding der_to_eth_sig
der_to_eth_sig-IsEthForm c der msg key sig h =
    let (parsed, next, e) =
      >>=-eq-ok (parse_der_signature c der) (λ parsed. rs_to_eth_sig c parsed.0 parsed.1 msg key)
        h in
    rs_to_eth_sig-IsEthForm c parsed.0 parsed.1 msg key sig next
