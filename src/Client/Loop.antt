-- ===== src/Client/Loop.antt =====
-- Start of Client in lib/server.go: the loop that reads and answers one router's PDUs.
use stayrtr.Prelude.{
  ℕ, true, not, ◌&&◌, ◌||◌, Option, none, some, List, [], ◌∷◌, length, ◌==◌, if◌then◌else◌,
}
use stayrtr.Pdu.{
  Pdu, serial_query, get_version, is_correct_pdu_version, protocol_version_0, protocol_version_1,
}
use stayrtr.Pdu.Decode.{Result, ok, err, DecodeError, decode_bytes}
use stayrtr.Server.{Outcome, done, panic}
use stayrtr.Client.{Client, set_client_version, send_wrong_version_error}
use stayrtr.Client.Handlers.{
  World, on_client, client_connected, disconnect, handle_pdu, pass_simple_handler,
}

unfoldable pub check_version : World → ℕ → World
check_version w newversion =
    if (not w.client.versionset || newversion == w.client.version)
      && (newversion == protocol_version_1 || newversion == protocol_version_0)
    then on_client w (λ c. set_client_version c newversion)
    else disconnect (on_client w send_wrong_version_error)

-- the test with `c.enforceVersion`
unfoldable pub enforce : World → Pdu → World
enforce w dec =
    if w.client.enforce_version && not (is_correct_pdu_version dec w.client.version)
    then disconnect (on_client w send_wrong_version_error)
    else w

note_serial : Client → Pdu → Client
note_serial c (serial_query p) = record c { curserial = p.serial_number }
note_serial c _ = c

-- What one turn of the loop does with a PDU. A bad version does not end the turn: what it sends then is
-- put into the channel of a client that is disconnected. The sends find room in the channel here.
unfoldable pub receive_pdu : World → Pdu → Outcome World
unfolding enforce note_serial
receive_pdu w dec =
    let w1 = if not w.client.disable_version_check then check_version w (get_version dec) else w in
    let w2 = enforce w1 dec in
    let w3 = on_client w2 (λ c. note_serial c dec) in pass_simple_handler (handle_pdu w3) dec

decoded : World → Result Pdu → Outcome World
decoded w (ok dec) = receive_pdu w dec
decoded w (err DecodeError.panic) = panic
decoded w (err _) = done (disconnect w)

-- What one turn of the loop does with the bytes that one Read returned: the first PDU of them is
-- taken, and nothing else.
unfoldable pub receive : World → List ℕ → Outcome World
unfolding decoded
receive w pkt = decoded w (decode_bytes pkt)

-- The loop, over what the calls of Read return; `none` is an error.
read_loop : World → List (Option (List ℕ)) → Outcome World
read_loop w [] = done w
read_loop w (none ∷ reads) = done (if w.client.connected then disconnect w else w)
read_loop w (some pkt ∷ reads) =
    if not w.client.connected
    then done w
    else if length pkt == 0
    then done (disconnect w)
    else elim (receive w pkt) [ panic ↦ panic | done w' ↦ read_loop w' reads ]

unfoldable pub start : World → List (Option (List ℕ)) → Outcome World
unfolding read_loop
start w reads =
    read_loop
      (record w {
        server = client_connected w.server w.id;
        client = record (w.client) { connected = true };
      })
      reads
