-- ===== src/Consensus/Host.antt =====
-- consensus/primary.go: `HostOf` and `PrimaryHost`, which the gRPC gate compares.
use bridge_remote_signer.Net.{index, split_host_port, colon}
use bridge_remote_signer.Net.Laws.{
  scheme_mark, IsPlain, Lacks, index_scheme, index_scheme_none, split_host_port_plain,
}
use bridge_remote_signer.Consensus.Primary.{PrimaryArbiter}
use bridge_remote_signer.Base.{
  Bytes, [], arith, drop, if◌then◌else◌, length, none, refl, some, suc, sym, ℕ, ◌++◌, ◌+◌, ◌==◌,
  ◌∙◌, ◌∷◌, ◌≡◌, ◌≢◌, bytes_eq, nat_eq,
}

strip_scheme : Bytes → Bytes
strip_scheme addr = elim (index addr scheme_mark) [ none ↦ addr | some i ↦ drop (i + 3) addr ]

unfoldable pub host_of : Bytes → Bytes
unfolding strip_scheme
host_of addr = if addr == [] then [] else elim (split_host_port (strip_scheme addr)) [
  | some (host, port) ↦ host
  | none ↦ strip_scheme addr
]

unfoldable pub primary_host : PrimaryArbiter → Bytes
primary_host a = host_of a.primary

-- `scheme://host:port`, as a dial target is written.
abbrev pub dial_target : Bytes → Bytes → Bytes → Bytes
dial_target scheme host port = scheme ++ scheme_mark ++ (host ++ colon ∷ port)

-- `host:port`, as the address of a connected peer is printed.
abbrev pub peer_addr : Bytes → Bytes → Bytes
peer_addr host port = host ++ colon ∷ port

drop-scheme : (s rest : Bytes) → drop (length s + 3) (s ++ scheme_mark ++ rest) ≡ rest
drop-scheme [] rest = refl
drop-scheme (x ∷ s) rest =
    let e : suc (length s) + 3 ≡ suc (length s + 3) = omega arith in rw e (drop-scheme s rest)

strip_scheme-dial_target :
    (scheme rest : Bytes) → Lacks colon scheme → strip_scheme (scheme ++ scheme_mark ++ rest) ≡ rest
unfolding strip_scheme
strip_scheme-dial_target scheme rest h =
    rw (index_scheme scheme rest h, strip_scheme) (drop-scheme scheme rest)

scheme-ne-nil : (s rest : Bytes) → (s ++ scheme_mark ++ rest) ≢ []
scheme-ne-nil [] rest e = cc
scheme-ne-nil (x ∷ s) rest e = cc

append-ne-nil : (xs ys : Bytes) (y : ℕ) → (xs ++ y ∷ ys) ≢ []
append-ne-nil [] ys y e = cc
append-ne-nil (x ∷ xs) ys y e = cc

host_of-peer_addr : (h p : Bytes) → IsPlain h → IsPlain p → host_of (peer_addr h p) ≡ h
unfolding host_of
host_of-peer_addr h p vh vp =
    ground
      (arith, append-ne-nil h p colon, index_scheme_none h p vh vp, split_host_port_plain h p vh vp)

host_of-dial_target :
    (scheme h p : Bytes)
    → Lacks colon scheme
    → IsPlain h
    → IsPlain p
    → host_of (dial_target scheme h p) ≡ h
unfolding host_of
host_of-dial_target scheme h p vs vh vp = ground (
  arith,
  scheme-ne-nil scheme (h ++ colon ∷ p),
  strip_scheme-dial_target scheme (h ++ colon ∷ p) vs,
  split_host_port_plain h p vh vp,
)

-- The host under which a node is dialled is the host from which its gRPC requests arrive, whatever
-- the scheme and the two ports, and it is the plain host name.
pub host_of_same_node :
    (scheme h dial_port peer_port : Bytes)
    → Lacks colon scheme
    → IsPlain h
    → IsPlain dial_port
    → IsPlain peer_port
    → (host_of (dial_target scheme h dial_port) ≡ host_of (peer_addr h peer_port))
      × (host_of (peer_addr h peer_port) ≡ h)
host_of_same_node scheme h p q vs vh vp vq = (
  host_of-dial_target scheme h p vs vh vp ∙ sym (host_of-peer_addr h q vh vq),
  host_of-peer_addr h q vh vq,
)
