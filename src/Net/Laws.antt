-- ===== src/Net/Laws.antt =====
-- How addresses of the form HOST:PORT and SCHEME://HOST:PORT are taken apart.
use bridge_remote_signer.Net.{
  colon, open_bracket, close_bracket, contains, last_index_byte, has_prefix, index, split_host_port,
}
use bridge_remote_signer.Base.{
  All, All-append, Bytes, List, [], ap, arith, ascii, drop, false, length, none, refl, some, suc,
  take, true, ℕ, ◌++◌, ◌+◌, ◌||◌, ◌∷◌, ◌≡◌, ◌≢◌,
}

abbrev pub Lacks : ℕ → Bytes → Type 0
Lacks c = All (λ x. x ≢ c)

pub take-length-append {ℓ} : {A : Type ℓ} (xs ys : List A) → take (length xs) (xs ++ ys) ≡ xs
take-length-append [] ys = refl
take-length-append (x ∷ xs) ys = ap (◌∷◌ x) (take-length-append xs ys)

pub drop-length-append {ℓ} : {A : Type ℓ} (xs ys : List A) → drop (length xs) (xs ++ ys) ≡ ys
drop-length-append [] ys = refl
drop-length-append (x ∷ xs) ys = drop-length-append xs ys

pub drop-suc_length-append {ℓ} :
    {A : Type ℓ} (xs ys : List A) (y : A) → drop (length xs + 1) (xs ++ y ∷ ys) ≡ ys
drop-suc_length-append [] ys y = refl
drop-suc_length-append (x ∷ xs) ys y =
    let e : suc (length xs) + 1 ≡ suc (length xs + 1) = omega arith in
    rw e (drop-suc_length-append xs ys y)

pub contains-append :
    (c : ℕ) (xs ys : Bytes) → contains c (xs ++ ys) ≡ (contains c xs || contains c ys)
unfolding contains
contains-append c [] ys = refl
contains-append c (x ∷ xs) ys = ground (arith, contains-append c xs ys)

pub contains_of_Lacks : (c : ℕ) (xs : Bytes) → Lacks c xs → contains c xs ≡ false
unfolding contains
contains_of_Lacks c [] h = refl
contains_of_Lacks c (x ∷ xs) h = ground (arith, contains_of_Lacks c xs h.1)

last_index_byte_of_Lacks : (c : ℕ) (xs : Bytes) → Lacks c xs → last_index_byte c xs ≡ none
unfolding last_index_byte
last_index_byte_of_Lacks c [] h = refl
last_index_byte_of_Lacks c (x ∷ xs) h = ground (arith, last_index_byte_of_Lacks c xs h.1)

last_index_byte-append :
    (c : ℕ) (xs ys : Bytes) → Lacks c ys → last_index_byte c (xs ++ c ∷ ys) ≡ some (length xs)
unfolding last_index_byte
last_index_byte-append c [] ys h = ground (arith, last_index_byte_of_Lacks c ys h)
last_index_byte-append c (x ∷ xs) ys h = ground (arith, last_index_byte-append c xs ys h)

-- A host or port of digits, letters, dots and dashes.
pub record IsPlain (s : Bytes) : Type 0 where
  pub no_colon : Lacks colon s
  pub no_open : Lacks open_bracket s
  pub no_close : Lacks close_bracket s
  pub no_slash : Lacks b'/' s

has_prefix_bracket :
    (h p : Bytes) → IsPlain h → has_prefix (open_bracket ∷ []) (h ++ colon ∷ p) ≡ false
unfolding has_prefix
has_prefix_bracket [] p v = refl
has_prefix_bracket (x ∷ h) p v = ground (arith, v.no_open)

contains_delimited :
    (c : ℕ) (h p : Bytes) → colon ≢ c → Lacks c h → Lacks c p → contains c (h ++ colon ∷ p) ≡ false
unfolding contains
contains_delimited c h p n vh vp =
    rw (contains-append c h (colon ∷ p), contains_of_Lacks c h vh)
      (ground (arith, contains_of_Lacks c p vp))

pub split_host_port_plain :
    (h p : Bytes) → IsPlain h → IsPlain p → split_host_port (h ++ colon ∷ p) ≡ some (h, p)
unfolding split_host_port
split_host_port_plain h p vh vp =
    rw (last_index_byte-append colon h p vp.no_colon, split_host_port)
      (ground (
        arith,
        has_prefix_bracket h p vh,
        take-length-append h (colon ∷ p),
        drop-suc_length-append h p colon,
        contains_of_Lacks colon h vh.no_colon,
        contains_delimited open_bracket h p (omega arith) vh.no_open vp.no_open,
        contains_delimited close_bracket h p (omega arith) vh.no_close vp.no_close,
      ))

prefix_bracket_more :
    (s h p : Bytes)
    → has_prefix (open_bracket ∷ []) ((s ++ colon ∷ h) ++ colon ∷ p)
      ≡ has_prefix (open_bracket ∷ []) (s ++ colon ∷ h)
unfolding has_prefix
prefix_bracket_more [] h p = refl
prefix_bracket_more (x ∷ s) h p = refl

contains_head : (c : ℕ) (xs : Bytes) → contains c (c ∷ xs) ≡ true
unfolding contains
contains_head c xs = ground arith

-- An address with a second colon, outside brackets, is refused.
pub split_host_port_of_two_colons :
    (s h p : Bytes)
    → has_prefix (open_bracket ∷ []) (s ++ colon ∷ h) ≡ false
    → Lacks colon p
    → split_host_port ((s ++ colon ∷ h) ++ colon ∷ p) ≡ none
unfolding split_host_port
split_host_port_of_two_colons s h p nb vp =
    rw (last_index_byte-append colon (s ++ colon ∷ h) p vp, split_host_port)
      (ground (
        arith,
        prefix_bracket_more s h p,
        take-length-append (s ++ colon ∷ h) (colon ∷ p),
        contains-append colon s (colon ∷ h),
        contains_head colon h,
      ))

abbrev pub scheme_mark : Bytes
scheme_mark = ascii "://"

pub index_scheme :
    (s rest : Bytes)
    → Lacks colon s
    → index (s ++ scheme_mark ++ rest) scheme_mark ≡ some (length s)
unfolding index has_prefix
index_scheme [] rest h = refl
index_scheme (x ∷ s) rest h = ground (arith, index_scheme s rest h.1)

index-none : (s : Bytes) → Lacks b'/' s → index s scheme_mark ≡ none
unfolding index has_prefix
index-none [] h = refl
index-none (x ∷ []) h = ground arith
index-none (x ∷ y ∷ s) h = ground (arith, index-none (y ∷ s) h.1)

pub index_scheme_none :
    (h p : Bytes) → IsPlain h → IsPlain p → index (h ++ colon ∷ p) scheme_mark ≡ none
index_scheme_none h p vh vp =
    index-none (h ++ colon ∷ p) (All-append _ h (colon ∷ p) vh.no_slash (omega arith, vp.no_slash))
