-- ===== src/Metrics/Tests.antt =====
-- The metrics at concrete inputs.
use bridge_remote_signer.Net.{split_host_port, last_index_byte}
use bridge_remote_signer.Metrics.{host_only, record_sign, no_metrics}
use bridge_remote_signer.Metrics.Laws.{
  IsConsistent, record_sign_exclusive, host_only_of_dial_target,
}
use bridge_remote_signer.Base.{Bytes, arith, ascii, lookup, refl, some, ℕ, ◌≡◌, ◌≢◌}

abbrev target : Bytes
target = ascii "tcp://node-1:26659"

dial_target_kept : host_only target ≡ target
dial_target_kept =
    host_only_of_dial_target b't' (ascii "cp") (ascii "//node-1") (ascii "26659") (ground arith)
      (ground arith)

abbrev host : Bytes
host = ascii "node-1"

host_only_bare : host_only host ≡ host
unfolding host_only split_host_port last_index_byte
host_only_bare = refl

record_sign_exclusive_bare :
    (lookup (host_only host) (record_sign no_metrics host).active_node ≡ some 1)
    × ((s : Bytes) (v : ℕ)
        → s ≢ host_only host
        → lookup s (record_sign no_metrics host).active_node ≡ some v
        → v ≡ 0)
    × IsConsistent (record_sign no_metrics host)
unfolding lookup
record_sign_exclusive_bare =
    record_sign_exclusive no_metrics host (λ s unseen. refl) (λ e. cc (host_only_bare))
