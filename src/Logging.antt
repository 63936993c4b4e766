-- ===== src/Logging.antt =====
-- logging/logging.go: what `New` accepts, and the records that the audit methods hand to log/slog.
-- How slog renders and writes a record is left out.
use bridge_remote_signer.Base.{
  Bool, Bytes, List, Option, Result, [], ascii, err, false, if◌then◌else◌, length, none, ok, pos,
  some, true, ℤ, ◌++◌, ◌==◌, ◌∷◌, bytes_eq, nat_eq, ◌>>=◌,
}
use bridge_remote_signer.Text.{hex_encode}
pub mod Laws
mod Tests

pub data Level : Type 0 where
  debug : Level
  info : Level
  warn : Level
  error : Level

pub data LogError : Type 0 where
  unknown_format : Bytes → LogError
  unknown_level : Bytes → LogError

pub data Format : Type 0 where
  json : Format
  text : Format

pub record Logger : Type 0 where
  pub level : Level
  pub add_source : Bool
  pub format : Format

unfoldable pub parse_level : Bytes → Result LogError Level
parse_level level =
    if level == ascii "debug"
    then ok debug
    else if level == ascii "info"
    then ok info
    else if level == ascii "warn"
    then ok warn
    else if level == ascii "error"
    then ok error
    else err (unknown_level level)

unfoldable pub parse_format : Bytes → Result LogError Format
parse_format format =
    if format == ascii "json"
    then ok json
    else if format == ascii "text"
    then ok text
    else err (unknown_format format)

abbrev pub is_debug : Level → Bool
is_debug debug = true
is_debug info = false
is_debug warn = false
is_debug error = false

unfoldable pub new_logger : Bytes → Bytes → Result LogError Logger
new_logger level format = do
  slog_level ← parse_level level
  handler ← parse_format format
  ok (record { level = slog_level; add_source = is_debug slog_level; format = handler })

-- An attribute's value.
pub data Value : Type 0 where
  string : Bytes → Value
  int : ℤ → Value
  bool : Bool → Value

-- A record as it is handed to slog.
pub record Record : Type 0 where
  pub level : Level
  pub message : Bytes
  pub attrs : List (Bytes × Value)

-- `Info`, `Debug`, `Warn` and `Error`, by the level.
abbrev pub log_at : Level → Bytes → List (Bytes × Value) → Record
log_at level message attrs = record { level = level; message = message; attrs = attrs }

-- `failure` is the error's text, and `duration_ms` what `Milliseconds` gives.
unfoldable pub audit_sign : (Bytes → Bytes) → Bytes → Bytes → Option Bytes → ℤ → Record
audit_sign sha256 request_id msg failure duration_ms =
    let attrs =
      (ascii "event", string (ascii "sign"))
      ∷ (ascii "request_id", string request_id)
      ∷ (ascii "msg_hash", string (hex_encode (sha256 msg)))
      ∷ (ascii "msg_len", int (pos (length msg)))
      ∷ (ascii "duration_ms", int duration_ms)
      ∷ [] in
    elim failure [
      | some e ↦
          log_at error (ascii "sign request failed")
            (attrs ++ ((ascii "error", string e) ∷ (ascii "success", bool false) ∷ []))
      | none ↦
          log_at info (ascii "sign request completed") (attrs ++ (ascii "success", bool true) ∷ [])
    ]

unfoldable pub audit_startup : Bytes → Bytes → Record
audit_startup backend listen_addr = log_at info (ascii "bridge-signer starting") (
    (ascii "event", string (ascii "startup"))
    ∷ (ascii "backend", string backend)
    ∷ (ascii "listen_addr", string listen_addr)
    ∷ [])

unfoldable pub audit_get_public_key : Option Bytes → Record
audit_get_public_key (some e) = log_at error (ascii "get public key failed") (
    (ascii "event", string (ascii "get_public_key"))
    ∷ (ascii "error", string e)
    ∷ (ascii "success", bool false)
    ∷ [])
audit_get_public_key none =
    log_at info (ascii "get public key")
      ((ascii "event", string (ascii "get_public_key")) ∷ (ascii "success", bool true) ∷ [])

unfoldable pub audit_shutdown : Record
audit_shutdown =
    log_at info (ascii "bridge-signer shutting down")
      ((ascii "event", string (ascii "shutdown")) ∷ [])

unfoldable pub audit_connection : Bytes → Record
audit_connection remote_addr =
    log_at debug (ascii "client connected") (
      (ascii "event", string (ascii "connection")) ∷ (ascii "remote_addr", string remote_addr) ∷ [])
