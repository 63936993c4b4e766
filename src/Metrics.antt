-- ===== src/Metrics.antt =====
-- metrics/metrics.go: the two gauge vectors and the set of seen nodes. A gauge vector is a map
-- from label to value; the order in which Go walks the set does not matter to the result.
pub mod Laws
mod Tests
use bridge_remote_signer.Net.{split_host_port}
use bridge_remote_signer.Base.{
  Bool, Bytes, List, [], if◌then◌else◌, insert, none, some, ℕ, ◌==◌, ◌∷◌, bytes_eq, nat_eq,
}

pub record Metrics : Type 0 where
  pub active_node : List (Bytes × ℕ)
  pub target_connected : List (Bytes × ℕ)
  pub seen : List Bytes

unfoldable pub set_target_connected : Metrics → Bytes → Bool → Metrics
set_target_connected m target connected = record m {
  target_connected = insert target (if connected then 1 else 0) m.target_connected;
}

unfoldable pub host_only : Bytes → Bytes
host_only remote_addr = elim (split_host_port remote_addr) [
  | some (host, port) ↦ host
  | none ↦ remote_addr
]

-- `seen[ip] = struct{}{}`
mark_seen : Bytes → List Bytes → List Bytes
mark_seen ip [] = ip ∷ []
mark_seen ip (s ∷ seen) = if s == ip then s ∷ seen else s ∷ mark_seen ip seen

-- The loop over `seen`.
set_active : Bytes → List Bytes → List (Bytes × ℕ) → List (Bytes × ℕ)
set_active ip [] gauges = gauges
set_active ip (s ∷ seen) gauges = set_active ip seen (insert s (if s == ip then 1 else 0) gauges)

unfoldable pub record_sign : Metrics → Bytes → Metrics
unfolding mark_seen set_active
record_sign m remote_addr =
    let ip = host_only remote_addr in
    if ip == []
    then m
    else let seen = mark_seen ip m.seen in
      record m { seen = seen; active_node = set_active ip seen m.active_node }

abbrev pub no_metrics : Metrics
no_metrics = record { active_node = []; target_connected = []; seen = [] }
