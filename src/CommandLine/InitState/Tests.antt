-- ===== src/CommandLine/InitState/Tests.antt =====
-- A first `init-state` of a configuration whose state file is not there.
use bridge_remote_signer.Base.{[], ascii, bytes_dec, false, ok, refl, ◌≡◌}
use bridge_remote_signer.Config.{apply_defaults, enabled}
use bridge_remote_signer.Config.Validate.Tests.{environment, loaded}
use bridge_remote_signer.Consensus.StateFile.{absent, written, init_state_file, write_file}
use bridge_remote_signer.CommandLine.InitState.{Files, run_init_state}
use bridge_remote_signer.CommandLine.InitState.Laws.{Keeps, run_init_state-fresh}

abbrev nothing : Files
nothing p = absent

created : (run_init_state environment false written nothing (ascii "config.yaml")).1 ≡ ok []
unfolding run_init_state init_state_file write_file apply_defaults enabled bytes_dec
created = rw (loaded, run_init_state) refl

run_init_state-fresh_example :
    Keeps environment false written nothing
      (ascii "config.yaml")
      (run_init_state environment false written nothing (ascii "config.yaml"))
run_init_state-fresh_example =
    run_init_state-fresh environment false written nothing (ascii "config.yaml")
