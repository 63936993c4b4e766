-- ===== src/Lib.antt =====
-- bridge-remote-signer: a signer that holds the keys of a validator outside of its nodes. It dials
-- each node for votes and proposals (the privval plane, package consensus), and serves the
-- signatures of the bridge over gRPC (package server). One node at a time is the elected primary,
-- whose sign requests are served; a guard with a file refuses to sign for a bridge checkpoint whose
-- timestamp is not above the last one. The account key lies in a backend of package signer, which
-- the daemon opens at its start.
--
-- The files, and the code that each is about:
--   Consensus/Types, Validate, Handler: the privval messages, consensus/validate.go and
--     consensus/handler.go. CometBFT's types and its own handler are parameters.
--   Consensus/Primary, Host: consensus/primary.go, PrimaryArbiter with Acquire and Release;
--     HostOf.
--   Consensus/Gate, Dial: consensus/server.go, the handler behind the election and the dial
--     client. Consensus/Plane: the clients of all targets at once, over one arbiter and one key.
--   Config, Config/Validate: config/config.go, with the rules in Config/Validate/Laws.
--   Consensus/StateFile, ConnKey: consensus/statefile.go, loadpv.go and connkey.go, the last-
--     sign state and the connection identity on the disk.
--   Signer/Types, Contract, Backends: signer/signer.go, the interface with its promises, and the
--     registry with both backends.
--   Signer/BigInt, SigUtils: signer/sig_utils.go, over what it uses of math/big.
--   Signer/Fortanix, File, Keyring, AtomicWrite, Address: the files of these names in signer.
--   Daemon: cmd/bridge-signer/cmd_start.go with New of server/server.go: the order in which a
--     start builds the other parts. Daemon/Errors has what cannot stop a start, and
--     Daemon/Lifecycle what happens from the start of both servers to the end of the process.
--   Export: cmd/bridge-signer/cmd_export.go. Health: health/health.go. Tls: api/tls/tls.go.
--   CommandLine: cmd/bridge-signer/cmd_root.go, what runs before each command.
--     CommandLine/InitState: cmd/bridge-signer/cmd_init.go.
--   Logging: logging/logging.go, New and the records of the audit methods.
--   Metrics: metrics/metrics.go, the gauges that the gate and the dial client set.
--   Server/Crypto, Checkpoint, BridgeCheckpoint: server/checkpoint.go and SignBridgeCheckpoint
--     of server/server.go, with the canonical order of a validator set in Checkpoint/Order and
--     its encoding in Checkpoint/Encoding. The hashes and the ABI packer are parameters.
--     BridgeCheckpoint/Ledger has whole runs of calls and restarts, BridgeCheckpoint/Concurrent
--     calls that interleave.
--   Server/Attestation, Registration, SignTx, Queries: the other handlers of server/server.go,
--     with server/attestation.go and server/initial.go. Server/Separation has attestations
--     beside checkpoints.
--   Server/Gateway, EnabledRpcs: server/auth.go and the interceptors of server/server.go.
--     EnabledRpcs/Switches compares its table with the one of config/config.go.
--   Server/ReplayGuard: server/replay_guard.go, the guard, its memo and its file.
--   Net, Text: what the source uses of net, strings, encoding/hex and strconv.
--   Base: the shared names, numbers, lists, strings and results.
--
-- A method that changes its receiver returns the new state, and a mutex makes a call one step; the
-- histories in Primary/History and ReplayGuard/History are lists of such steps in any order.
-- Between two of its mutexes a call of SignBridgeCheckpoint may be overtaken: Concurrent/Step is a
-- step relation over any number of calls, as Consensus/Plane/Step is over the dial clients and
-- Daemon/Lifecycle/Step over the goroutines of a shutdown. A Go string or byte slice is a list of
-- bytes, a 64-bit unsigned number a natural number below 2 ^ 64, a signed one an integer that is
-- only compared, and an instant a number that is an argument. Errors are values, and a Go panic is
-- an outcome of its own. Each loop is a recursion on a list, except for the bytes of a big integer:
-- they are computed on fuel, which is the number itself, and a step divides the number by 256, so
-- that it is enough.
--
-- Not modelled: log lines, deadlines, the text of an error beyond what tells the errors apart, the
-- memory model of Go beyond its mutexes, cobra's parsing of the command line, the texts of its
-- help, and the parts that are pure input and output.
pub mod Base
pub mod CommandLine
pub mod Net
pub mod Text
pub mod Tls
pub mod Daemon
pub mod Export
pub mod Health
pub mod Logging
pub mod Metrics
pub mod Consensus
pub mod Server
pub mod Signer
pub mod Config
