-- ===== src/Consensus/StateFile.antt =====
-- consensus/statefile.go and consensus/loadpv.go: the last-sign state on the disk. CometBFT's JSON and
-- keys are parameters.
use bridge_remote_signer.Base.{
  Bool, Bytes, Option, Result, [], ascii, ensure, err, false, ok, some_or, take, true, ℕ, ℤ, ◌++◌,
  ◌∷◌, ◌>>◌, ◌>>=◌,
}
pub mod Laws
mod Tests

-- What stands at a path.
pub data Entry : Type 0 where
  absent : Entry
  directory : Entry
  regular : Bytes → Entry

-- How an `os.WriteFile` ends: an error can leave part of the bytes.
pub data WriteEnd : Type 0 where
  written : WriteEnd
  not_opened : WriteEnd
  cut_off : ℕ → WriteEnd

pub data StateFileError : Type 0 where
  state_file_not_found : StateFileError
  stat_failed : StateFileError
  is_a_directory : StateFileError
  already_exists : StateFileError
  create_failed : StateFileError

abbrev pub fresh_state_json : Bytes
fresh_state_json = ascii "{\"height\":\"0\",\"round\":0,\"step\":0}" ++ 10 ∷ []

-- `stat_fails`: an error other than `os.IsNotExist`.
unfoldable pub require_state_file : Bool → Entry → Result StateFileError (Unit {0})
require_state_file true entry = err stat_failed
require_state_file false absent = err state_file_not_found
require_state_file false directory = err is_a_directory
require_state_file false (regular b) = ok tt

unfoldable pub write_file : WriteEnd → Bytes → Entry → Entry × Bool
write_file written b entry = (regular b, true)
write_file not_opened b entry = (entry, false)
write_file (cut_off n) b entry = (regular (take n b), false)

unfoldable pub init_state_file : Bool → WriteEnd → Entry → Entry × Result StateFileError (Unit {0})
init_state_file true end entry = (entry, err stat_failed)
init_state_file false end directory = (directory, err is_a_directory)
init_state_file false end (regular b) = (regular b, err already_exists)
init_state_file false end absent =
    let (entry, done) = write_file end fresh_state_json absent in (entry, ensure done create_failed)

pub record LastSignState : Type 0 where
  pub height : ℤ
  pub round : ℤ
  pub step : ℤ
  pub signature : Bytes
  pub sign_bytes : Bytes

-- The key file's and the state file's JSON. A key file may lack the key.
pub record PvCodec : Type 1 where
  pub PrivKey : Type 0
  pub unmarshal_key : Bytes → Option (Option PrivKey)
  pub unmarshal_state : Bytes → Option LastSignState
  pub new_last_sign_state : LastSignState

pub data LoadError : Type 0 where
  read_key_failed : LoadError
  parse_key_failed : LoadError
  missing_priv_key : LoadError
  read_state_failed : LoadError
  parse_state_failed : LoadError

pub record FilePv (codec : PvCodec) : Type 0 where
  pub priv_key : codec.PrivKey
  pub last_sign_state : LastSignState

module _ (codec : PvCodec) where
  -- The state of `NewFilePV`, replaced by the file's if there is one. `read_fails`: an error other
  -- than `os.IsNotExist`, as a directory gives it.
  unfoldable pub load_state : Bool → Entry → Result LoadError LastSignState
  load_state true entry = err read_state_failed
  load_state false absent = ok codec.new_last_sign_state
  load_state false directory = err read_state_failed
  load_state false (regular b) = some_or parse_state_failed (codec.unmarshal_state b)

  unfoldable pub load_comet_file_pv : Option Bytes → Bool → Entry → Result LoadError (FilePv codec)
  load_comet_file_pv key_json read_fails entry = do
    json ← some_or read_key_failed key_json
    parsed ← some_or parse_key_failed (codec.unmarshal_key json)
    priv_key ← some_or missing_priv_key parsed
    state ← load_state read_fails entry
    ok (record { priv_key = priv_key; last_sign_state = state })
