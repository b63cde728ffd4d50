-- ===== src/Monitor/Turns.antt =====
-- Start of the monitor's Client: its turns, with a session or with the fetch of a file
-- (cmd/rtrmon/rtrmon.go).
pub mod Closed
use stayrtr.Prelude.{ℕ, true, Option, none, some, List, [], ◌∷◌, Text, if◌then◌else◌}
use stayrtr.Net.{IpNet}
use stayrtr.Pdu.{protocol_version_1}
use stayrtr.Prefixfile.{VrpList}
use stayrtr.Fetch.{FetchConfig, Outside}
use stayrtr.Session.{new_client_session}
use stayrtr.Session.Listener.{listener}
use stayrtr.Session.Connect.{Opening}
use stayrtr.Session.Network.{Network, Started, connect, start_opened}
use stayrtr.Monitor.{MonitorClient, monitor_pdu}
use stayrtr.Monitor.Link.{monitor_connected}
use stayrtr.Monitor.Connect.{Settings, is_rtr, session_start}
use stayrtr.Monitor.Files.{fetch_turn}

-- What a turn meets: the time, the network, and the files and servers of HTTP.
pub record Situation (Signer Conn SshClient SshSession : Type 0) : Type 0 where
  pub now : ℕ
  pub network : Network Signer Conn SshClient SshSession
  pub outside : Outside

-- The client with its FetchConfig after a turn, or the end of the program by log.Fatal.
pub data Turned : Type 0 where
  went_on : MonitorClient × FetchConfig → Turned
  fatal : Turned

-- the part of a turn behind the session
unfoldable pub after_session : FetchConfig → Started MonitorClient → Turned
after_session config ended = elim (ended.error) [
  | some e ↦ fatal
  | none ↦ went_on (ended.handler_state, config)
]

module _ (ipnet_string : IpNet → Text) (parse_cidr : Text → Option IpNet) (uint32_of_float : ℕ → ℕ)
    (parse_http_time : Text → Option ℕ) (decode_json : Text → Option VrpList) (grace_period : ℕ)
    {Signer Conn SshClient SshSession : Type 0} (parse_private_key : Text → Option Signer)
    (settings : Settings) where
  -- a turn with a session; the time of all its PDUs is that of the turn. none stands for a session
  -- that does not end.
  unfoldable pub session_turn :
      Text
      → Text
      → MonitorClient × FetchConfig
      → Situation Signer Conn SshClient SshSession
      → Option Turned
  session_turn conn_type rtr_addr (c, config) at =
      elim (session_start parse_private_key settings conn_type rtr_addr) [
        | none ↦ some fatal
        | some opening ↦
            elim (start_opened
              (listener (λ h pdu. monitor_pdu ipnet_string h at.now pdu) monitor_connected)
              (c, new_client_session protocol_version_1 true) (connect at.network opening)) [
                | none ↦ none
                | some ended ↦ some (after_session config ended)
              ]
      ]

  -- a turn of the loop of Start
  unfoldable pub start_turn :
      Text
      → Text
      → MonitorClient × FetchConfig
      → Situation Signer Conn SshClient SshSession
      → Option Turned
  start_turn conn_type rtr_addr (c, config) at =
      if is_rtr conn_type
      then session_turn conn_type rtr_addr (c, config) at
      else some (
          went_on
            (fetch_turn ipnet_string parse_cidr uint32_of_float parse_http_time decode_json
              grace_period (c, config) at.outside at.now settings.path).0)

  -- the loop of Start, over as many turns as there are situations
  unfoldable pub start_turns :
      Text
      → Text
      → MonitorClient × FetchConfig
      → List (Situation Signer Conn SshClient SshSession)
      → Option Turned
  start_turns conn_type rtr_addr st [] = some (went_on st)
  start_turns conn_type rtr_addr st (at ∷ turns) = elim (start_turn conn_type rtr_addr st at) [
    | none ↦ none
    | some fatal ↦ some fatal
    | some (went_on st') ↦ start_turns conn_type rtr_addr st' turns
  ]

  -- Start, where `parse_url` is url.Parse with the scheme and the host of its result
  unfoldable pub client_start :
      (Text → Option (Text × Text))
      → MonitorClient × FetchConfig
      → List (Situation Signer Conn SshClient SshSession)
      → Option Turned
  client_start parse_url st turns = elim (parse_url settings.path) [
    | none ↦ some fatal
    | some (scheme, host) ↦ start_turns scheme host st turns
  ]
