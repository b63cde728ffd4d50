-- ===== src/Dump/Connect.antt =====
-- cmd/rtrdump/rtrdump.go: what main makes of its flags.
use stayrtr.Prelude.{
  ℕ, ◌%◌, Bool, not, Option, some, List, [], ◌∷◌, Text, text_eq, codes, if◌then◌else◌, ◌==◌, length,
}
use stayrtr.Prelude.Int.{ℤ}
use stayrtr.Prelude.Options.{◌>>=◌}
use stayrtr.Prefixfile.{uint32_of_int}
use stayrtr.Dump.{DumpClient, new_dump_client}
use stayrtr.Session.Connect.{
  AuthMethod, with_password, with_public_keys, Opening, start, checks_host_key, auth_to_id,
  method_password, method_key, type_plain, type_tls, type_ssh,
}

-- The flags that main reads for its connection and its client.
pub record DumpFlags : Type 0 where
  pub connect : Text
  pub conn_type : Text
  pub validate_cert : Bool
  pub validate_ssh : Bool
  pub ssh_server_key : Text
  pub ssh_auth : Text
  pub ssh_auth_user : Text
  pub ssh_auth_password : Text
  pub ssh_auth_key : Text
  pub init_serial : Bool
  pub serial : ℤ
  pub session : ℤ

-- typeToId, with the 0 that a map has for a key that is not in it
unfoldable pub type_to_id : Text → ℕ
type_to_id name =
    if text_eq name (codes "plain")
    then type_plain
    else if text_eq name (codes "tls")
    then type_tls
    else if text_eq name (codes "ssh")
    then type_ssh
    else 0

-- The client of main: uint32 and uint16 of the two numbers.
unfoldable pub client_of_flags : DumpFlags → DumpClient
client_of_flags flags =
    new_dump_client flags.init_serial (uint32_of_int flags.serial)
      (uint32_of_int flags.session % 65536)

module _ {Signer : Type 0} (getenv : Text → Text) (read_file : Text → Option Text)
    (parse_private_key : Text → Option Signer) where
  unfoldable pub dump_key_bytes : DumpFlags → Option Text
  dump_key_bytes flags =
      if length flags.ssh_auth_key == 0
      then some (getenv (codes "RTR_SSH_KEY"))
      else read_file flags.ssh_auth_key

  unfoldable pub dump_password : DumpFlags → Text
  dump_password flags =
      if length flags.ssh_auth_password == 0
      then getenv (codes "RTR_SSH_PASSWORD")
      else flags.ssh_auth_password

  unfoldable pub dump_keys : DumpFlags → Option (List (AuthMethod Signer))
  dump_keys flags = do
    key_bytes ← dump_key_bytes flags
    signer ← parse_private_key key_bytes
    some (with_public_keys signer ∷ [])

  -- the credentials of the method that the flags name; none where main ends the program
  unfoldable pub dump_auth : DumpFlags → Option (List (AuthMethod Signer))
  dump_auth flags = do
    auth_type ← auth_to_id flags.ssh_auth
    if auth_type == method_password
        then some (with_password (dump_password flags) ∷ [])
        else if auth_type == method_key
        then dump_keys flags
        else some []

  -- The call of Start in main.
  unfoldable pub dump_start : DumpFlags → Option (Opening Signer)
  dump_start flags = do
    auth ← dump_auth flags
    some (
        start flags.connect (type_to_id flags.conn_type)
          (record { insecure_skip_verify = not flags.validate_cert })
          (record {
            auth = auth;
            user = flags.ssh_auth_user;
            host_key_callback = checks_host_key flags.validate_ssh flags.ssh_server_key;
          }))
