-- ===== src/Net.antt =====
-- The calls of Go's standard library on addresses that the source makes: `net.SplitHostPort`,
-- `strings.Index` and `strings.ContainsRune`, over bytes. Behind them `Net/Laws.antt`.
pub mod Laws
use bridge_remote_signer.Base.{
  Bool, Bytes, Option, [], drop, false, if◌then◌else◌, none, not, some, take, true, ℕ, ◌&&◌, ◌+◌,
  ◌==◌, ◌||◌, ◌∷◌, bytes_eq, nat_eq,
}

abbrev pub colon : ℕ
colon = b':'

abbrev pub open_bracket : ℕ
open_bracket = b'['

abbrev pub close_bracket : ℕ
close_bracket = b']'

unfoldable pub contains : ℕ → Bytes → Bool
contains c [] = false
contains c (x ∷ xs) = x == c || contains c xs

unfoldable pub index_byte : ℕ → Bytes → Option ℕ
index_byte c [] = none
index_byte c (x ∷ xs) =
    if x == c then some 0 else elim (index_byte c xs) [ none ↦ none | some i ↦ some (i + 1) ]

unfoldable pub last_index_byte : ℕ → Bytes → Option ℕ
last_index_byte c [] = none
last_index_byte c (x ∷ xs) = elim (last_index_byte c xs) [
  | some i ↦ some (i + 1)
  | none ↦ if x == c then some 0 else none
]

unfoldable pub has_prefix : Bytes → Bytes → Bool
has_prefix [] s = true
has_prefix (p ∷ ps) [] = false
has_prefix (p ∷ ps) (c ∷ s) = p == c && has_prefix ps s

-- `strings.Index(s, sep)`, for a `sep` that is not empty
unfoldable pub index : Bytes → Bytes → Option ℕ
index [] sep = none
index (c ∷ s) sep =
    if has_prefix sep (c ∷ s)
    then some 0
    else elim (index s sep) [ none ↦ none | some i ↦ some (i + 1) ]

split_plain : Bytes → ℕ → Option (Bytes × Bytes)
split_plain hostport i =
    if contains colon (take i hostport)
      || contains open_bracket hostport
      || contains close_bracket hostport
    then none
    else some (take i hostport, drop (i + 1) hostport)

split_bracketed : Bytes → ℕ → Option (Bytes × Bytes)
split_bracketed hostport i = elim (index_byte close_bracket hostport) [
  | none ↦ none
  | some end ↦
      if not (end + 1 == i)
        || contains open_bracket (drop 1 hostport)
        || contains close_bracket (drop (end + 1) hostport)
      then none
      else some (drop 1 (take end hostport), drop (i + 1) hostport)
]

-- `net.SplitHostPort`; `none` stands for its error.
unfoldable pub split_host_port : Bytes → Option (Bytes × Bytes)
unfolding split_plain split_bracketed
split_host_port hostport = elim (last_index_byte colon hostport) [
  | none ↦ none
  | some i ↦
      if has_prefix (open_bracket ∷ []) hostport
      then split_bracketed hostport i
      else split_plain hostport i
]
