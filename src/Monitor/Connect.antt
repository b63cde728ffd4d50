-- ===== src/Monitor/Connect.antt =====
-- cmd/rtrmon/rtrmon.go: what main makes of the flags of its two clients, and the connection that a
-- session of Start opens.
pub mod Trusting
pub mod Same
use stayrtr.Prelude.{
  ℕ, Bool, true, false, not, ◌||◌, Option, none, some, List, [], ◌∷◌, ◌++◌, Text, text_eq, codes,
  if◌then◌else◌, ◌==◌, length,
}
use stayrtr.Prelude.Options.{◌>>=◌}
use stayrtr.Session.Connect.{
  TlsConfig, AuthMethod, with_password, with_public_keys, SshClientConfig, Opening, start,
  checks_host_key, auth_to_id, method_none, method_password, method_key, type_plain, type_tls,
  type_ssh,
}

-- The flags of one of the two clients.
pub record HostFlags : Type 0 where
  pub host : Text
  pub validate_cert : Bool
  pub validate_ssh : Bool
  pub ssh_server_key : Text
  pub ssh_auth : Text
  pub ssh_auth_user : Text
  pub ssh_auth_password : Text
  pub ssh_auth_key : Text
  pub refresh : ℕ
  pub rtr_break : Bool

-- The settings of the struct Client; what its sessions and fetches change is in MonitorClient.
pub record Settings : Type 0 where
  pub validate_ssh : Bool
  pub validate_cert : Bool
  pub ssh_auth_user : Text
  pub ssh_server_key : Text
  pub ssh_auth_password : Text
  pub break_rtr : Bool
  pub auth_type : ℕ
  pub key_bytes : Text
  pub path : Text
  pub refresh_interval : ℕ

-- the settings of NewClient: all zero
unfoldable pub new_settings : Settings
new_settings = record {
  validate_ssh = false;
  validate_cert = false;
  ssh_auth_user = [];
  ssh_server_key = [];
  ssh_auth_password = [];
  break_rtr = false;
  auth_type = 0;
  key_bytes = [];
  path = [];
  refresh_interval = 0;
}

-- the settings that main takes over for either client
unfoldable pub set_flags : Settings → ℕ → HostFlags → Settings
set_flags c auth_type flags = record c {
  auth_type = auth_type;
  ssh_auth_user = flags.ssh_auth_user;
  ssh_auth_password = flags.ssh_auth_password;
  path = flags.host;
  refresh_interval = flags.refresh;
  break_rtr = flags.rtr_break;
}

-- typeToId, with the 0 that a map has for a key that is not in it
unfoldable pub scheme_to_id : Text → ℕ
scheme_to_id name =
    if text_eq name (codes "tcp")
    then type_plain
    else if text_eq name (codes "tls")
    then type_tls
    else if text_eq name (codes "ssh")
    then type_ssh
    else 0

-- the test of Start: does the scheme mean a session, and not the fetch of a file?
unfoldable pub is_rtr : Text → Bool
is_rtr conn_type =
    text_eq conn_type (codes "ssh")
    || (text_eq conn_type (codes "tcp") || text_eq conn_type (codes "tls"))

module _ (getenv : Text → Text) (read_file : Text → Option Text) where
  -- the bytes of the key, from the environment where the flag is empty
  unfoldable pub read_key : Text → HostFlags → Option Text
  read_key env flags =
      if length flags.ssh_auth_key == 0 then some (getenv env) else read_file flags.ssh_auth_key

  unfoldable pub with_key : Text → HostFlags → Settings → Option Settings
  with_key env flags c = do
    key_bytes ← read_key env flags
    some (record c { key_bytes = key_bytes })

  unfoldable pub set_key : Text → HostFlags → Settings → Option Settings
  set_key env flags c = if c.auth_type == method_key then with_key env flags c else some c

  unfoldable pub set_primary_password : Settings → Settings
  set_primary_password c =
      if length c.ssh_auth_password == 0
      then record c { ssh_auth_password = getenv (codes "RTR_SSH_PASSWORD_1") }
      else c

  -- for the second client another test stands here: the method that its flag names
  unfoldable pub set_secondary_password : HostFlags → Settings → Settings
  set_secondary_password flags c = elim (auth_to_id flags.ssh_auth) [
    | none ↦ c
    | some method ↦
        if method == method_key
        then record c { ssh_auth_password = getenv (codes "RTR_SSH_PASSWORD_2") }
        else c
  ]

  -- The first client of main; none where main ends the program.
  unfoldable pub primary_client : HostFlags → Option Settings
  primary_client flags = do
    auth_type ← auth_to_id flags.ssh_auth
    let c = set_flags new_settings auth_type flags
    set_key (codes "RTR_SSH_KEY_1") flags (set_primary_password c)

  -- The second client of main.
  unfoldable pub secondary_client : HostFlags → Option Settings
  secondary_client flags = do
    auth_type ← auth_to_id flags.ssh_auth
    let c = set_flags new_settings auth_type flags
    set_key (codes "RTR_SSH_KEY_2") flags (set_secondary_password flags c)

module _ {Signer : Type 0} (parse_private_key : Text → Option Signer) where
  unfoldable pub session_keys : Settings → Option (List (AuthMethod Signer))
  session_keys c = do signer ← parse_private_key c.key_bytes; some (with_public_keys signer ∷ [])

  unfoldable pub session_auth : Settings → Option (List (AuthMethod Signer))
  session_auth c =
      if c.auth_type == method_password
      then some (with_password c.ssh_auth_password ∷ [])
      else if c.auth_type == method_key
      then session_keys c
      else some []

  -- The call of Start of a session, for a path with the scheme `conn_type` and the host `rtr_addr`.
  unfoldable pub session_start : Settings → Text → Text → Option (Opening Signer)
  session_start c conn_type rtr_addr = do
    auth ← session_auth c
    some (
        start rtr_addr (scheme_to_id conn_type)
          (record { insecure_skip_verify = not c.validate_cert })
          (record {
            auth = auth;
            user = c.ssh_auth_user;
            host_key_callback = checks_host_key c.validate_ssh c.ssh_server_key;
          }))

  -- the session that Start begins with a client of main, if main does not end the program before
  abbrev pub opens : Text → Text → Option Settings → Option (Opening Signer)
  opens conn_type rtr_addr client = do c ← client; session_start c conn_type rtr_addr
