-- ===== src/Tests/Sending.antt =====
-- A PDU on its way through the channel of a connection, and what a monitor makes of it.
use stayrtr.Prelude.{ℕ, ◌≡◌, ◌≤◌, refl, arith, Bool, true, some, [], ◌∷◌}
use stayrtr.Pdu.{Pdu, cache_response}
use stayrtr.Pdu.Write.{write}
use stayrtr.Pdu.Received.{received}
use stayrtr.Session.{
  ClientSession, new_client_session, send_reset_query, session_send_pdu, start_rw,
}
use stayrtr.Session.Listener.{listener, until_stop}
use stayrtr.Client.SendLoop.{
  Sender, new_sender, put_pdu, test_connected, take_pdu, loop_turn, loop_turns,
}
use stayrtr.Client.SendLoop.Order.{Sends, begun, put, turned, IsWritten, Sends-IsWritten}
use stayrtr.Client.SendLoop.Delivered.{start_rw-loop_turns}
use stayrtr.Monitor.{MonitorClient, monitor_pdu}
use stayrtr.Monitor.Link.{new_monitor_client, monitor_connected}
use stayrtr.Tests.{raw_text}

abbrev first : Pdu
first = cache_response (record { version = 1; session_id = 9 })

abbrev second : Pdu
second = cache_response (record { version = 1; session_id = 10 })

-- The first PDU is written, and the second one waits.
abbrev half : Sender
half = record new_sender { transmits = second ∷ []; wire = write first }

half-Sends : Sends half (first ∷ second ∷ [])
unfolding put_pdu new_sender loop_turn test_connected take_pdu
half-Sends = put half second (turned (turned (put _ first begun refl))) refl

Sends-IsWritten_example : IsWritten half (first ∷ second ∷ [])
Sends-IsWritten_example = Sends-IsWritten half-Sends

abbrev step : MonitorClient → Pdu → MonitorClient × Bool
step c pdu = monitor_pdu raw_text c 20 pdu

abbrev session : ClientSession
session = new_client_session 1 true

start_rw-loop_turns_example :
    (n : ℕ) × (n ≤ 512)
    × ((loop_turns n half).transmits ≡ [])
    × (end : ClientSession) × (start_rw
          (listener step monitor_connected)
          (new_monitor_client, session)
          (loop_turns n half).wire
        ≡ some (until_stop step new_monitor_client (first ∷ second ∷ []), end))
unfolding new_sender monitor_connected send_reset_query session_send_pdu received
start_rw-loop_turns_example =
    start_rw-loop_turns step monitor_connected new_monitor_client session half-Sends refl
      (((omega arith, omega arith), refl), (((omega arith, omega arith), refl), tt)) refl
