-- ===== src/Session.antt =====
-- lib/client.go: a session of a client with a server, whose handler is a parameter.
pub mod Stream
pub mod Listener
pub mod Connect
pub mod Ending
pub mod Network
use stayrtr.Prelude.{
  ℕ, zero, suc, Bool, true, false, not, ◌&&◌, Option, none, some, List, [], ◌∷◌, ◌++◌, length, ◌==◌,
  if◌then◌else◌,
}
use stayrtr.Pdu.{
  Pdu, serial_query, reset_query, set_version, get_version, protocol_version_0, protocol_version_1,
}
use stayrtr.Pdu.Decode.{Result, ok, err, DecodeError, decode}

-- The struct ClientSession without its connection, its handler and `curserial`, which nothing reads. `transmits` is as in Client, and
-- `has_log` says whether it was given a log.
pub record ClientSession : Type 0 where
  pub version : ℕ
  pub connected : Bool
  pub transmits : List Pdu
  pub has_log : Bool

-- NewClientSession, from the version and the log of its configuration, of which it takes no more
unfoldable pub new_client_session : ℕ → Bool → ClientSession
new_client_session protocol_version has_log = record {
  version = protocol_version;
  connected = false;
  transmits = [];
  has_log = has_log;
}

unfoldable pub session_send_pdu : ClientSession → Pdu → ClientSession
session_send_pdu c pdu = record c { transmits = c.transmits ++ (set_version pdu c.version ∷ []) }

unfoldable pub send_reset_query : ClientSession → ClientSession
send_reset_query c = session_send_pdu c (reset_query (record { version = 0 }))

unfoldable pub send_serial_query : ClientSession → ℕ → ℕ → ClientSession
send_serial_query c sessionid serial =
    session_send_pdu c
      (serial_query (record { version = 0; session_id = sessionid; serial_number = serial }))

-- A handler: what it does with its own state and the session when a client is connected and when a
-- PDU comes, and with its own state when the client is disconnected.
pub record SessionHandler (H : Type 0) : Type 0 where
  pub client_connected : H → ClientSession → H × ClientSession
  pub handle_pdu : H → ClientSession → Pdu → H × ClientSession
  pub client_disconnected : H → H

-- the version after a PDU was read
unfoldable pub downgrade : ClientSession → Pdu → ClientSession
downgrade c dec =
    if (c.version == protocol_version_1) && (get_version dec == protocol_version_0)
    then (if c.has_log then record c { version = protocol_version_0 } else c)
    else c

module _ {H : Type 0} (handler : SessionHandler H) where
  open handler use {client_connected, handle_pdu, client_disconnected}

  -- Disconnect, for a session and its handler
  unfoldable pub session_disconnect : H × ClientSession → H × ClientSession
  session_disconnect (h, c) = (client_disconnected h, record c { connected = false })

  -- the body of the loop of StartRW, for a PDU that was decoded
  unfoldable pub session_pdu : H × ClientSession → Pdu → H × ClientSession
  session_pdu (h, c) dec = handle_pdu h (downgrade c dec) dec

  -- The loop of StartRW, on all the bytes that the server sends before it closes the connection:
  -- every PDU takes at least one byte, so that `suc (length bytes)` rounds are enough. The end of the
  -- bytes is a read error.
  unfoldable pub session_loop : ℕ → H × ClientSession → List ℕ → Option (H × ClientSession)
  session_loop zero st bytes = none
  session_loop (suc fuel) (h, c) bytes =
      if not c.connected then some (h, c) else elim (decode (some bytes)) [
        | err e ↦ some (session_disconnect (h, c))
        | ok (dec, rest) ↦ session_loop fuel (session_pdu (h, c) dec) rest
      ]

  -- StartWithConn and StartRW
  unfoldable pub start_rw : H × ClientSession → List ℕ → Option (H × ClientSession)
  start_rw (h, c) bytes =
      session_loop (suc (length bytes)) (client_connected h (record c { connected = true })) bytes
