-- ===== src/Session/Network.antt =====
-- lib/client.go: StartPlain, StartTLS and StartSSH, which open the connection of a session. What the
-- packages net, crypto/tls and golang.org/x/crypto/ssh do is a parameter.
use stayrtr.Prelude.{ℕ, Bool, Option, none, some, List, Text, codes, if◌then◌else◌}
use stayrtr.Pdu.Decode.{DecodeError}
use stayrtr.Session.{ClientSession, SessionHandler}
use stayrtr.Session.Ending.{start_result}
use stayrtr.Session.Connect.{
  TlsConfig, SshClientConfig, Opening, start_plain, start_tls, start_ssh, unknown_type,
}

-- The calls of these packages; none is an error. The bytes of a connection, and of the standard
-- output of an SSH session, are all that comes until the other side closes it.
pub record Network (Signer Conn SshClient SshSession : Type 0) : Type 0 where
  pub resolve_tcp_addr : Text → Option Text
  pub dial_tcp : Text → Option Conn
  pub tls_dial : Text → TlsConfig → Option Conn
  pub new_client_conn : Conn → Text → SshClientConfig Signer → Option SshClient
  pub new_session : SshClient → Option SshSession
  pub request_subsystem : SshSession → Text → Bool
  pub bytes_of : Conn → List ℕ
  pub stdout_of : SshSession → List ℕ

-- What Start returns as an error.
pub data StartError : Type 0 where
  not_resolved : StartError
  not_dialed : StartError
  no_handshake : StartError
  no_session : StartError
  no_subsystem : StartError
  of_unknown_type : ℕ → StartError
  not_decoded : DecodeError → StartError

-- A connection that was opened, by the bytes that come over it, or an error.
pub data Opened : Type 0 where
  opened : List ℕ → Opened
  not_opened : StartError → Opened

module _ {Signer Conn SshClient SshSession : Type 0}
    (network : Network Signer Conn SshClient SshSession) where
  open network use {
    resolve_tcp_addr, dial_tcp, tls_dial, new_client_conn, new_session, request_subsystem, bytes_of,
    stdout_of,
  }

  -- the connection of StartPlain
  unfoldable pub open_plain : Text → Opened
  open_plain addr = elim (resolve_tcp_addr addr) [
    | none ↦ not_opened not_resolved
    | some addr_tcp ↦ elim (dial_tcp addr_tcp) [
      | none ↦ not_opened not_dialed
      | some tcpconn ↦ opened (bytes_of tcpconn)
    ]
  ]

  -- the connection of StartTLS
  unfoldable pub open_tls : Text → TlsConfig → Opened
  open_tls addr config = elim (tls_dial addr config) [
    | none ↦ not_opened not_dialed
    | some tcpconn ↦ opened (bytes_of tcpconn)
  ]

  -- StartSSH, once there is a connection over TCP
  unfoldable pub open_subsystem : Conn → Text → SshClientConfig Signer → Opened
  open_subsystem tcpconn addr config = elim (new_client_conn tcpconn addr config) [
    | none ↦ not_opened no_handshake
    | some client ↦ elim (new_session client) [
      | none ↦ not_opened no_session
      | some session ↦
          if request_subsystem session (codes "rpki-rtr")
          then opened (stdout_of session)
          else not_opened no_subsystem
    ]
  ]

  -- the connection of StartSSH
  unfoldable pub open_ssh : Text → SshClientConfig Signer → Opened
  open_ssh addr config = elim (resolve_tcp_addr addr) [
    | none ↦ not_opened not_resolved
    | some addr_tcp ↦ elim (dial_tcp addr_tcp) [
      | none ↦ not_opened not_dialed
      | some tcpconn ↦ open_subsystem tcpconn addr config
    ]
  ]

  unfoldable pub connect : Opening Signer → Opened
  connect (start_plain addr) = open_plain addr
  connect (start_tls addr config) = open_tls addr config
  connect (start_ssh addr config) = open_ssh addr config
  connect (unknown_type conn_type) = not_opened (of_unknown_type conn_type)

-- What Start returns: the handler and the session after it, with its error; none is nil.
pub record Started (H : Type 0) : Type 0 where
  pub handler_state : H
  pub session : ClientSession
  pub error : Option StartError

module _ {H : Type 0} (handler : SessionHandler H) where
  unfoldable pub decode_error : Option DecodeError → Option StartError
  decode_error none = none
  decode_error (some e) = some (not_decoded e)

  -- A session on a connection, or where there is none.
  unfoldable pub start_opened : H × ClientSession → Opened → Option (Started H)
  unfolding decode_error
  start_opened (h, c) (not_opened e) =
      some (record { handler_state = h; session = c; error = some e })
  start_opened (h, c) (opened bytes) = elim (start_result handler (h, c) bytes) [
    | none ↦ none
    | some ((h', c'), e) ↦
        some (record { handler_state = h'; session = c'; error = decode_error e })
  ]
