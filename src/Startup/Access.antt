-- ===== src/Startup/Access.antt =====
-- cmd/stayrtr/stayrtr.go, run: who may log in over SSH.
use stayrtr.Prelude.{
  Bool, true, false, not, ◌&&◌, ◌||◌, Option, none, some, List, [], ◌∷◌, ◌++◌, Text, text_eq, codes,
  if◌then◌else◌, ◌==◌, length,
}
use stayrtr.Prelude.Split.{split_on}

-- The flags of SSH.
pub record SshFlags : Type 0 where
  pub enable_password : Bool
  pub user : Text
  pub password : Text
  pub enable_key : Bool
  pub keys_bypass : Bool
  pub keys_list : Text

-- ssh.ServerConfig, without the host key: the callbacks are given the user and the
-- password, or the user, the type of the key and the base64 of its bytes.
pub record SshServerConfig : Type 0 where
  pub password_callback : Option (Text → Text → Bool)
  pub public_key_callback : Option (Text → Text → Text → Bool)
  pub no_client_auth : Bool

-- strings.HasPrefix
unfoldable pub has_prefix : Text → Text → Bool
has_prefix s [] = true
has_prefix [] (c ∷ p) = false
has_prefix (d ∷ s) (c ∷ p) = (d == c) && has_prefix s p

-- the loop over the lines of the file with the keys
unfoldable pub has_key : Text → List Text → Bool
has_key shown [] = false
has_key shown (k ∷ keys) =
    let rest = has_key shown keys in
    if length k == 0 then rest else if has_prefix k shown then true else rest

-- `key.Type()` and the encoded key with a space between
unfoldable pub key_text : Text → Text → Text
key_text key_type key_base64 = key_type ++ (32 ∷ key_base64)

module _ (getenv : Text → Text) (read_file : Text → Option Text) where
  unfoldable pub ssh_password : SshFlags → Text
  ssh_password flags =
      if length flags.password == 0 then getenv (codes "STAYRTR_SSH_PASSWORD") else flags.password

  -- the text with the keys; none where the file cannot be read
  unfoldable pub ssh_keys : SshFlags → Option Text
  ssh_keys flags =
      if length flags.keys_list == 0
      then some (getenv (codes "STAYRTR_SSH_AUTHORIZEDKEYS"))
      else read_file flags.keys_list

  unfoldable pub check_password : SshFlags → Text → Text → Bool
  check_password flags user supplied =
      if not (text_eq user flags.user) || not (text_eq supplied (ssh_password flags))
      then false
      else true

  unfoldable pub check_key : SshFlags → List Text → Text → Text → Text → Bool
  check_key flags keys user key_type key_base64 =
      if not flags.keys_bypass then has_key (key_text key_type key_base64) keys else true

  -- The part of run that sets up SSH; none where it ends the program.
  unfoldable pub ssh_server_config : SshFlags → Option SshServerConfig
  ssh_server_config flags =
      let config : SshServerConfig = record {
        password_callback = if flags.enable_password then some (check_password flags) else none;
        public_key_callback = none;
        no_client_auth = not (flags.enable_key || flags.enable_password);
      } in
      if flags.enable_key
      then elim (ssh_keys flags) [
        | none ↦ none
        | some text ↦
            some (record config { public_key_callback = some (check_key flags (split_on 10 text)) })
      ]
      else some config
