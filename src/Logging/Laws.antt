-- ===== src/Logging/Laws.antt =====
-- Which audit records a logger lets through.
use bridge_remote_signer.Base.{
  Bool, Bytes, arith, ascii, none, ok, some, true, ℕ, ℤ, ◌↔◌, ◌≡◌, ◌≤◌, ◌⊎◌,
}
use bridge_remote_signer.Logging.{
  Level, debug, info, warn, error, Logger, Record, parse_level, new_logger, audit_sign,
  audit_startup, audit_get_public_key, audit_shutdown,
}

-- slog's levels, in their order.
abbrev pub severity : Level → ℕ
severity debug = 0
severity info = 1
severity warn = 2
severity error = 3

-- log/slog: a handler's `Enabled`, by its minimum level.
pub record Slog : Type 0 where
  pub enabled : Level → Level → Bool

-- "The handler discards records with lower levels."
abbrev pub IsSlog : Slog → Type 0
IsSlog slog = (least l : Level) → (slog.enabled least l ≡ true) ↔ (severity least ≤ severity l)

abbrev pub IsEmitted : Slog → Logger → Record → Type 0
IsEmitted slog logger r = slog.enabled logger.level r.level ≡ true

-- The levels at which a success is let through.
abbrev pub IsVerbose : Bytes → Type 0
IsVerbose level = (level ≡ ascii "debug") ⊎ (level ≡ ascii "info")

parse_level-severity :
    (level : Bytes) (l : Level) → parse_level level ≡ ok l → (severity l ≤ 1) ↔ IsVerbose level
unfolding parse_level
parse_level-severity level debug h = ground arith
parse_level-severity level info h = ground arith
parse_level-severity level warn h = ground arith
parse_level-severity level error h = ground arith

severity-le : (l : Level) → severity l ≤ 3
severity-le l = ground arith

iff_trans : {A B C : Type 0} → A ↔ B → B ↔ C → A ↔ C
iff_trans (f, g) (h, k) = (λ a. h (f a), λ x. g (k x))

new_logger-level :
    (level format : Bytes) (logger : Logger)
    → new_logger level format ≡ ok logger
    → parse_level level ≡ ok logger.level
unfolding new_logger
new_logger-level level format logger h = ground arith

-- Whatever level and format are accepted: of the records that the audit methods make when they are
-- called, a logger lets through those of a signing or of a request for the public key with an error,
-- and those of a signing or such a request without one, of the startup and of the shutdown exactly if
-- the level is "debug" or "info". Which calls the handlers make is not part of it.
pub audit-IsEmitted :
    (slog : Slog)
    → IsSlog slog
    → (sha256 : Bytes → Bytes) (level format : Bytes) (logger : Logger)
    → new_logger level format ≡ ok logger
    → (request_id msg e backend addr : Bytes) (ms : ℤ)
    → IsEmitted slog logger (audit_sign sha256 request_id msg (some e) ms)
      × IsEmitted slog logger (audit_get_public_key (some e))
      × (IsEmitted slog logger (audit_sign sha256 request_id msg none ms) ↔ IsVerbose level)
      × (IsEmitted slog logger (audit_get_public_key none) ↔ IsVerbose level)
      × (IsEmitted slog logger (audit_startup backend addr) ↔ IsVerbose level)
      × (IsEmitted slog logger audit_shutdown ↔ IsVerbose level)
unfolding audit_sign audit_get_public_key audit_startup audit_shutdown
audit-IsEmitted slog law sha256 level format logger made request_id msg e backend addr ms =
    let parsed = new_logger-level level format logger made in
    let failure = (law logger.level error).1 (severity-le logger.level) in
    let success =
      iff_trans (law logger.level info) (parse_level-severity level logger.level parsed) in
    (failure, failure, success, success, success, success)
