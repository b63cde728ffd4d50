-- ===== src/Monitor/Turns/Closed.antt =====
-- What becomes of the monitor when a session ends (cmd/rtrmon/rtrmon.go, Start).
use stayrtr.Prelude.{
  ℕ, ◌≡◌, refl, Bool, true, Option, some, List, ◌∷◌, Text, All, if◌then◌else◌, Bool-cases, inl, inr,
}
use stayrtr.Net.{IpNet}
use stayrtr.Pdu.{Pdu, protocol_version_1}
use stayrtr.Prefixfile.{VrpList}
use stayrtr.Fetch.{FetchConfig}
use stayrtr.Session.{ClientSession, new_client_session, send_reset_query, session_send_pdu}
use stayrtr.Session.Stream.{write_all}
use stayrtr.Session.Listener.{IsKept, until_stop}
use stayrtr.Session.Ending.{stops, start_result-write_all}
use stayrtr.Session.Connect.{Opening}
use stayrtr.Session.Network.{opened, connect, start_opened, decode_error}
use stayrtr.Monitor.{MonitorClient, monitor_pdu}
use stayrtr.Monitor.Link.{monitor_connected}
use stayrtr.Monitor.Connect.{Settings, is_rtr, session_start}
use stayrtr.Monitor.Turns.{
  Situation, went_on, fatal, start_turn, session_turn, after_session, start_turns, client_start,
}

stays-connected :
    (cs : ClientSession) (c : MonitorClient)
    → (monitor_connected c (record cs { connected = true })).connected ≡ true
unfolding monitor_connected send_reset_query session_send_pdu
stays-connected cs c = refl

module _ (ipnet_string : IpNet → Text) (parse_cidr : Text → Option IpNet) (uint32_of_float : ℕ → ℕ)
    (parse_http_time : Text → Option ℕ) (decode_json : Text → Option VrpList) (grace_period : ℕ)
    {Signer Conn SshClient SshSession : Type 0} (parse_private_key : Text → Option Signer)
    (settings : Settings) where
  module _ (conn_type rtr_addr : Text) (rtr : is_rtr conn_type ≡ true) (c : MonitorClient)
      (config : FetchConfig) (at : Situation Signer Conn SshClient SshSession) where
    abbrev step : MonitorClient → Pdu → MonitorClient × Bool
    step h pdu = monitor_pdu ipnet_string h at.now pdu

    -- A turn with a session that is opened, and over which PDUs that the wire keeps come until it is
    -- closed: the monitor goes on with its client after the PDUs up to the first at which its handler
    -- ends the session; if the handler ends it at none, so that it is the server that closes it, the
    -- whole program ends.
    start_turn-write_all :
        (opening : Opening Signer) (pdus : List Pdu)
        → session_start parse_private_key settings conn_type rtr_addr ≡ some opening
        → connect at.network opening ≡ opened (write_all pdus)
        → All IsKept pdus
        → start_turn ipnet_string parse_cidr uint32_of_float parse_http_time decode_json
            grace_period parse_private_key settings conn_type rtr_addr
            (c, config)
            at
          ≡ some (
              if stops step monitor_connected c pdus
              then went_on (until_stop step c pdus, config)
              else fatal)
    unfolding start_turn session_turn after_session start_opened decode_error
    start_turn-write_all opening pdus e1 e2 k =
        let cs = new_client_session protocol_version_1 true in
        let (end, q) =
          start_result-write_all step monitor_connected c cs pdus (stays-connected cs c) k in
        elim (Bool-cases (stops step monitor_connected c pdus)) [
          | inl s ↦ rw (start_turn, rtr, session_turn, e1, start_opened, e2, q, s) refl
          | inr s ↦ rw (start_turn, rtr, session_turn, e1, start_opened, e2, q, s) refl
        ]

  -- Start, for a path whose scheme means a session that is opened, and over which PDUs that the wire
  -- keeps come until it is closed: if the handler ends the session at one of them, the monitor goes
  -- on to its next turns with its client after the PDUs up to the first of these; if it ends it at none,
  -- so that it is the server that closes it, the whole program ends, whatever the next turns would
  -- have been.
  pub client_start-write_all :
      (parse_url : Text → Option (Text × Text)) (conn_type rtr_addr : Text) (c : MonitorClient)
      (config : FetchConfig) (at : Situation Signer Conn SshClient SshSession)
      (turns : List (Situation Signer Conn SshClient SshSession)) (opening : Opening Signer)
      (pdus : List Pdu)
      → parse_url settings.path ≡ some (conn_type, rtr_addr)
      → is_rtr conn_type ≡ true
      → session_start parse_private_key settings conn_type rtr_addr ≡ some opening
      → connect at.network opening ≡ opened (write_all pdus)
      → All IsKept pdus
      → let step = λ (h : MonitorClient) (pdu : Pdu). monitor_pdu ipnet_string h at.now pdu in
        client_start ipnet_string parse_cidr uint32_of_float parse_http_time decode_json
          grace_period parse_private_key settings parse_url
          (c, config)
          (at ∷ turns)
        ≡ (if stops step monitor_connected c pdus
            then start_turns ipnet_string parse_cidr uint32_of_float parse_http_time decode_json
                grace_period parse_private_key settings conn_type rtr_addr
                (until_stop step c pdus, config)
                turns
            else some fatal)
  unfolding client_start start_turns
  client_start-write_all parse_url conn_type rtr_addr c config at turns opening pdus parsed rtr e1
        e2 k =
      let first = start_turn-write_all conn_type rtr_addr rtr c config at opening pdus e1 e2 k in
      let step = λ (h : MonitorClient) (pdu : Pdu). monitor_pdu ipnet_string h at.now pdu in
      elim (Bool-cases (stops step monitor_connected c pdus)) [
        | inl s ↦ rw (client_start, parsed, start_turns, first, s) refl
        | inr s ↦ rw (client_start, parsed, start_turns, first, s) refl
      ]
