-- ===== src/Startup.antt =====
-- cmd/stayrtr/stayrtr.go: what run makes of the flags.
pub mod Kept
pub mod Life
pub mod Exports
pub mod Access
pub mod KeyLines
pub mod Logins
use stayrtr.Prelude.{
  ℕ, ◌-◌, ◌%◌, Bool, true, false, not, ◌&&◌, ◌||◌, Option, none, some, [], Text, length, ◌==◌,
  if◌then◌else◌,
}
use stayrtr.Prelude.Int.{ℤ, pos, negsuc}
use stayrtr.Prefixfile.{uint32_of_int}
use stayrtr.Server.{ServerConfiguration, Server, new_server}
use stayrtr.Fetch.{FetchConfig, new_fetch_config}
use stayrtr.Feed.State.{State}
use stayrtr.Feed.Turns.{initial_state}

-- The flags that run reads, without those of the log, the metrics, the certificates and SSH.
pub record Flags : Type 0 where
  pub rtr_version : ℤ
  pub session_id : ℤ
  pub refresh_rtr : ℤ
  pub retry_rtr : ℤ
  pub expire_rtr : ℤ
  pub bind : Text
  pub bind_tls : Text
  pub bind_ssh : Text
  pub time_check : Bool
  pub cache_bin : Text
  pub etag : Bool
  pub last_modified : Bool
  pub user_agent : Text
  pub mime : Text
  pub max_conn : ℤ
  pub send_notifs : Bool
  pub slurm : Text
  pub slurm_refresh : Bool

-- protoverToLib, with the 0 that a map has for a key that is not in it
unfoldable pub proto_ver_to_lib : ℤ → ℕ
proto_ver_to_lib (pos n) = if n == 1 then 1 else 0
proto_ver_to_lib (negsuc n) = 0

-- The configuration of the server: the fields that run does not name are 0 and false.
unfoldable pub server_configuration : Flags → ServerConfiguration
server_configuration flags = record {
  max_conn = pos 0;
  protocol_version = proto_ver_to_lib flags.rtr_version;
  enforce_version = false;
  keep_difference = 3;
  sess_id = flags.session_id;
  refresh_interval = uint32_of_int flags.refresh_rtr;
  retry_interval = uint32_of_int flags.retry_rtr;
  expire_interval = uint32_of_int flags.expire_rtr;
}

unfoldable pub fetch_settings : Flags → FetchConfig
fetch_settings flags = record new_fetch_config {
  user_agent = flags.user_agent;
  mime = flags.mime;
  enable_etags = flags.etag;
  enable_last_modified = flags.last_modified;
}

-- Is there no address to bind to? Then run ends the program.
unfoldable pub has_no_bind : Flags → Bool
has_no_bind flags =
    (length flags.bind == 0) && ((length flags.bind_tls == 0) && (length flags.bind_ssh == 0))

-- The state of run before the first fetch; `random` is what GenerateSessionId draws.
unfoldable pub run_state : Flags → ℕ → State
run_state flags random =
    initial_state (new_server (server_configuration flags) random) flags.send_notifs
      flags.time_check (fetch_settings flags)

-- the file of local exceptions that routineUpdate is given
unfoldable pub refreshed_slurm : Flags → Text
refreshed_slurm flags = if flags.slurm_refresh then flags.slurm else []
