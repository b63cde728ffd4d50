-- ===== src/Session/Connect.antt =====
-- lib/client.go: the ways in which Start of a session connects to a server, and the configurations
-- of TLS and SSH that the programs hand to it.
use stayrtr.Prelude.{
  ℕ, Bool, true, false, not, Option, none, some, List, ◌++◌, Text, text_eq, codes, if◌then◌else◌,
  ◌==◌,
}

-- the numbers of the types, which iota counts from the start of its block of constants
abbrev pub type_plain : ℕ
type_plain = 24

abbrev pub type_tls : ℕ
type_tls = 25

abbrev pub type_ssh : ℕ
type_ssh = 26

-- tls.Config, as far as the programs set it
pub record TlsConfig : Type 0 where
  pub insecure_skip_verify : Bool

-- What a client shows to an SSH server; `Signer` is the type of a key that ssh.ParsePrivateKey reads.
pub data AuthMethod (Signer : Type 0) : Type 0 where
  with_password : Text → AuthMethod Signer
  with_public_keys : Signer → AuthMethod Signer

-- ssh.ClientConfig: `host_key_callback` is given the fingerprint of the server's key, and is false
-- where the callback returns an error.
pub record SshClientConfig (Signer : Type 0) : Type 0 where
  pub auth : List (AuthMethod Signer)
  pub user : Text
  pub host_key_callback : Text → Bool

-- What Start does: the connection that it opens, or its error.
pub data Opening (Signer : Type 0) : Type 0 where
  start_plain : Text → Opening Signer
  start_tls : Text → TlsConfig → Opening Signer
  start_ssh : Text → SshClientConfig Signer → Opening Signer
  unknown_type : ℕ → Opening Signer

module _ {Signer : Type 0} where
  -- Start
  unfoldable pub start : Text → ℕ → TlsConfig → SshClientConfig Signer → Opening Signer
  start addr conn_type config_tls config_ssh =
      if conn_type == type_tls
      then start_tls addr config_tls
      else if conn_type == type_plain
      then start_plain addr
      else if conn_type == type_ssh
      then start_ssh addr config_ssh
      else unknown_type conn_type

-- The host key callback of both programs, from the two settings that it reads.
unfoldable pub checks_host_key : Bool → Text → Text → Bool
checks_host_key validate_ssh ssh_server_key server_key_hash =
    if validate_ssh
    then if not (text_eq server_key_hash (codes "SHA256:" ++ ssh_server_key)) then false else true
    else true

-- the numbers of the methods; the constants of both programs count from 2, as iota does on their lines
abbrev pub method_none : ℕ
method_none = 2

abbrev pub method_password : ℕ
method_password = 3

abbrev pub method_key : ℕ
method_key = 4

-- authToId, which is the same in both programs
unfoldable pub auth_to_id : Text → Option ℕ
auth_to_id name =
    if text_eq name (codes "none")
    then some method_none
    else if text_eq name (codes "password")
    then some method_password
    else if text_eq name (codes "key")
    then some method_key
    else none
