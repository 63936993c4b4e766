-- ===== src/Metrics/Laws.antt =====
-- At most one node is shown as active.
use bridge_remote_signer.Net.{colon, open_bracket, has_prefix}
use bridge_remote_signer.Net.Laws.{Lacks, split_host_port_of_two_colons}
use bridge_remote_signer.Metrics.{Metrics, host_only, mark_seen, set_active, record_sign}
use bridge_remote_signer.Base.{
  Bool, Bytes, List, [], arith, false, if◌then◌else◌, lookup, lookup-insert, none, refl, some, ℕ,
  ◌++◌, ◌==◌, ◌||◌, ◌∷◌, ◌≡◌, ◌≢◌, bytes_eq, nat_eq,
}

abbrev is_seen : Bytes → List Bytes → Bool
is_seen ip [] = false
is_seen ip (s ∷ seen) = s == ip || is_seen ip seen

-- A node that was never seen has no gauge.
abbrev pub IsConsistent : Metrics → Type 0
IsConsistent m = (s : Bytes) → is_seen s m.seen ≡ false → lookup s m.active_node ≡ none

is_seen-mark_seen :
    (ip s : Bytes) (seen : List Bytes) → is_seen s (mark_seen ip seen) ≡ (ip == s || is_seen s seen)
unfolding mark_seen
is_seen-mark_seen ip s [] = ground arith
is_seen-mark_seen ip s (x ∷ seen) = ground (arith, is_seen-mark_seen ip s seen)

lookup-set_active :
    (ip s : Bytes) (seen : List Bytes) (gauges : List (Bytes × ℕ))
    → lookup s (set_active ip seen gauges)
      ≡ (if is_seen s seen then some (if s == ip then 1 else 0) else lookup s gauges)
unfolding set_active
lookup-set_active ip s [] gauges = refl
lookup-set_active ip s (x ∷ seen) gauges =
    rw (lookup-set_active ip s seen, lookup-insert) (ground arith)

-- After a recording the gauge of `s` is 1 for the node recorded, 0 for every other node seen so
-- far, and as before for the rest.
lookup-record_sign :
    (m : Metrics) (addr s : Bytes)
    → host_only addr ≢ []
    → lookup s (record_sign m addr).active_node ≡ (
        if host_only addr == s
        then some 1
        else if is_seen s m.seen
        then some 0
        else lookup s m.active_node)
unfolding record_sign
lookup-record_sign m addr s named = ground (
  arith,
  lookup-set_active (host_only addr) s (mark_seen (host_only addr) m.seen) m.active_node,
  is_seen-mark_seen (host_only addr) s m.seen,
)

record_sign-IsConsistent :
    (m : Metrics) (addr : Bytes) → IsConsistent m → IsConsistent (record_sign m addr)
unfolding record_sign
record_sign-IsConsistent m addr c s unseen = ground (
  arith,
  lookup-set_active (host_only addr) s (mark_seen (host_only addr) m.seen) m.active_node,
  is_seen-mark_seen (host_only addr) s m.seen,
  c s,
)

-- Once a node with a host is recorded, its gauge is 1, every other node that has a gauge shows 0,
-- and gauges still belong to nodes seen.
pub record_sign_exclusive :
    (m : Metrics) (addr : Bytes)
    → IsConsistent m
    → host_only addr ≢ []
    → (lookup (host_only addr) (record_sign m addr).active_node ≡ some 1)
      × ((s : Bytes) (v : ℕ)
          → s ≢ host_only addr
          → lookup s (record_sign m addr).active_node ≡ some v
          → v ≡ 0)
      × IsConsistent (record_sign m addr)
record_sign_exclusive m addr c named = (
  ground (arith, lookup-record_sign m addr (host_only addr) named),
  λ s v other shown. ground (arith, lookup-record_sign m addr s named, c s),
  record_sign-IsConsistent m addr c,
)

-- The label of a dial target with a scheme is the whole target: scheme and port are kept, since
-- `net.SplitHostPort` refuses an address with two colons.
pub host_only_of_dial_target :
    (s : ℕ) (scheme rest port : Bytes)
    → s ≢ open_bracket
    → Lacks colon port
    → host_only (((s ∷ scheme) ++ colon ∷ rest) ++ colon ∷ port)
      ≡ ((s ∷ scheme) ++ colon ∷ rest) ++ colon ∷ port
unfolding host_only has_prefix
host_only_of_dial_target s scheme rest port bare lacks =
    rw (split_host_port_of_two_colons (s ∷ scheme) rest port (ground arith) lacks, host_only) refl
