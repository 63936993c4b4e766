-- ===== src/Signer/SigUtils.antt =====
-- signer/sig_utils.go: a DER signature of an HSM becomes the 65 bytes r || s || v of Ethereum. The
-- curve and encoding/asn1 are parameters. A panic is an error of its own.
use bridge_remote_signer.Base.{
  Bool, Bytes, List, Option, Result, [], drop, err, false, if◌then◌else◌, leb, length, ltb_ℤ, none,
  ok, pos, replicate, some, take, true, ℕ, ℤ, ◌++◌, ◌+◌, ◌-◌, ◌/◌, ◌==◌, ◌∷◌, bytes_eq, nat_eq,
  ◌>>=◌,
}
pub mod Slots
pub mod Laws
pub mod Shape
use bridge_remote_signer.Signer.BigInt.{big_bytes, set_bytes, minus}

pub data SigError : Type 0 where
  not_der : SigError
  no_r_or_s : SigError
  not_recovered : SigError
  slice_panic : SigError
  off_curve_panic : SigError

-- `order` is the N of `secp256k1.S256()`. `none` stands for an error, of `marshal_compressed` for
-- its panic on a point that is not on the curve. An absent DER field is a nil.
pub record Curve : Type 0 where
  pub order : ℕ
  pub ecrecover : Bytes → Bytes → Option Bytes
  pub marshal_compressed : ℕ → ℕ → Option Bytes
  pub unmarshal_signature : Bytes → Option (Option ℤ × Option ℤ)

-- `copy(dst[end-len(src):end], src)`, which panics on a negative start
unfoldable pub copy_right : Bytes → ℕ → Bytes → Option Bytes
copy_right dst end src =
    if leb (length src) end then some (take (end - length src) dst ++ src ++ drop end dst) else none

-- `candidate := make([]byte, 65); copy(candidate, rsSig); candidate[64] = v`
unfoldable pub candidate : Bytes → ℕ → Bytes
candidate rs v = take 64 (rs ++ replicate 64 0) ++ v ∷ []

module _ (c : Curve) where
  unfoldable pub half_n : ℕ
  half_n = c.order / 2

  unfoldable pub parse_der_signature : Bytes → Result SigError (ℤ × ℤ)
  parse_der_signature der = elim (c.unmarshal_signature der) [
    | none ↦ err not_der
    | some (none, s) ↦ err no_r_or_s
    | some (some r, none) ↦ err no_r_or_s
    | some (some r, some s) ↦ ok (r, s)
  ]

  -- The x and y of an uncompressed point, compressed.
  unfoldable pub compress : Bytes → Option Bytes
  compress point =
      c.marshal_compressed (set_bytes (take 32 (drop 1 point)))
        (set_bytes (take 32 (drop 33 point)))

  -- One round of the loop: does this v recover the expected key?
  unfoldable pub try_v : Bytes → Bytes → Bytes → ℕ → Result SigError Bool
  try_v msg rs key v = elim (c.ecrecover msg (candidate rs v)) [
    | none ↦ ok false
    | some recovered ↦
        if length recovered == 65
        then elim (compress recovered) [
          | none ↦ err off_curve_panic
          | some compressed ↦ ok (compressed == key)
        ]
        else ok false
  ]

  unfoldable pub recover_v_among : List ℕ → Bytes → Bytes → Bytes → Result SigError ℕ
  recover_v_among [] msg rs key = err not_recovered
  recover_v_among (v ∷ vs) msg rs key = elim (try_v msg rs key v) [
    | err e ↦ err e
    | ok true ↦ ok v
    | ok false ↦ recover_v_among vs msg rs key
  ]

  unfoldable pub recover_v : Bytes → Bytes → Bytes → Result SigError ℕ
  recover_v msg rs key = recover_v_among (0 ∷ 1 ∷ []) msg rs key

  -- Lower S: an s above half the order becomes its twin.
  unfoldable pub low_s : ℤ → ℤ
  low_s s = if ltb_ℤ (pos half_n) s then minus c.order s else s

  unfoldable pub pack_rs : ℤ → ℤ → Result SigError Bytes
  pack_rs r s = elim (copy_right (replicate 65 0) 32 (big_bytes r)) [
    | none ↦ err slice_panic
    | some with_r ↦ elim (copy_right with_r 64 (big_bytes s)) [
      | none ↦ err slice_panic
      | some sig ↦ ok sig
    ]
  ]

  unfoldable pub rs_to_eth_sig : ℤ → ℤ → Bytes → Bytes → Result SigError Bytes
  rs_to_eth_sig r s msg key = do
    sig ← pack_rs r (low_s s)
    v ← recover_v msg (take 64 sig) key
    ok (take 64 sig ++ (v + 27) ∷ [])

  unfoldable pub der_to_eth_sig : Bytes → Bytes → Bytes → Result SigError Bytes
  der_to_eth_sig der msg key = do (r, s) ← parse_der_signature der; rs_to_eth_sig r s msg key
