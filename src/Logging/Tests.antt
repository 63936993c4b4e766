-- ===== src/Logging/Tests.antt =====
-- A logger at level "warn".
use bridge_remote_signer.Base.{
  Bytes, [], arith, ascii, bytes_dec, false, leb, none, ok, pos, refl, some, ◌↔◌, ◌∷◌, ◌≡◌,
}
use bridge_remote_signer.Logging.{
  Logger, warn, text, new_logger, parse_level, parse_format, audit_sign, audit_get_public_key,
  audit_startup, audit_shutdown,
}
use bridge_remote_signer.Logging.Laws.{
  Slog, IsSlog, IsEmitted, IsVerbose, severity, audit-IsEmitted,
}

abbrev by_severity : Slog
by_severity = record { enabled = λ least l. leb (severity least) (severity l) }

by_severity-IsSlog : IsSlog by_severity
by_severity-IsSlog least l = ground arith

abbrev quiet : Logger
quiet = record { level = warn; add_source = false; format = text }

made : new_logger (ascii "warn") (ascii "text") ≡ ok quiet
unfolding new_logger parse_level parse_format bytes_dec
made = refl

abbrev hash : Bytes → Bytes
hash b = b

audit-IsEmitted_example :
    IsEmitted by_severity quiet (audit_sign hash [] (1 ∷ []) (some []) (pos 3))
    × IsEmitted by_severity quiet (audit_get_public_key (some []))
    × (IsEmitted by_severity quiet (audit_sign hash [] (1 ∷ []) none (pos 3))
        ↔ IsVerbose (ascii "warn"))
    × (IsEmitted by_severity quiet (audit_get_public_key none) ↔ IsVerbose (ascii "warn"))
    × (IsEmitted by_severity quiet (audit_startup [] []) ↔ IsVerbose (ascii "warn"))
    × (IsEmitted by_severity quiet audit_shutdown ↔ IsVerbose (ascii "warn"))
audit-IsEmitted_example =
    audit-IsEmitted by_severity by_severity-IsSlog hash (ascii "warn") (ascii "text") quiet made []
      (1 ∷ []) [] [] [] (pos 3)
