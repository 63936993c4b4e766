-- ===== src/CommandLine/InitState.antt =====
-- cmd/bridge-signer/cmd_init.go: `init-state` as one command over the configuration and the files.
use bridge_remote_signer.Base.{Bool, Bytes, Result, err, if◌then◌else◌, ok, ◌==◌, bytes_eq, nat_eq}
use bridge_remote_signer.Config.{Environment, ConfigError}
use bridge_remote_signer.Config.Validate.{load}
use bridge_remote_signer.Consensus.StateFile.{Entry, WriteEnd, StateFileError, init_state_file}
pub mod Laws
mod Tests

-- What stands at each path.
abbrev pub Files : Type 0
Files = Bytes → Entry

abbrev pub put : Files → Bytes → Entry → Files
put files path entry p = if path == p then entry else files p

pub data InitError : Type 0 where
  load_config : ConfigError → InitError
  init_failed : StateFileError → InitError

-- `stat_fails` and `ends` say how the calls of the file system end. The answer is the path printed.
unfoldable pub run_init_state :
    Environment → Bool → WriteEnd → Files → Bytes → Files × Result InitError Bytes
run_init_state env stat_fails end files config_path = elim (load env config_path) [
  | err e ↦ (files, err (load_config e))
  | ok cfg ↦
      let path = cfg.consensus.state_file in
      let (entry, made) = init_state_file stat_fails end (files path) in
      elim made [
        | err e ↦ (put files path entry, err (init_failed e))
        | ok u ↦ (put files path entry, ok path)
      ]
]
