-- ===== src/Client/SendLoop.antt =====
-- sendLoop and the channel that it empties (lib/server.go, and the same of a session in
-- lib/client.go), from step to step.
pub mod Order
pub mod Delivered
use stayrtr.Prelude.{
  ℕ, zero, suc, Bool, true, false, ◌&&◌, Option, none, some, List, [], ◌∷◌, ◌++◌, length, ltb,
  if◌then◌else◌,
}
use stayrtr.Pdu.{Pdu}
use stayrtr.Pdu.Write.{write}

-- Where sendLoop stands: before its test, in its select, or behind its end.
pub data Place : Type 0 where
  testing : Place
  selecting : Place
  ended : Place

-- The fields of a connection that its sendLoop reads, with whether its socket is open, the place of the
-- loop and the bytes that it has written.
pub record Sender : Type 0 where
  pub connected : Bool
  pub open_socket : Bool
  pub transmits : List Pdu
  pub place : Place
  pub wire : List ℕ

-- as Start leaves it
unfoldable pub new_sender : Sender
new_sender = record {
  connected = true;
  open_socket = true;
  transmits = [];
  place = testing;
  wire = [];
}

-- SendRawPDU: the channel takes 256 PDUs; `none` where its sender has to wait.
unfoldable pub put_pdu : Sender → Pdu → Option Sender
put_pdu w pdu =
    if ltb (length w.transmits) 256
    then some (record w { transmits = w.transmits ++ (pdu ∷ []) })
    else none

unfoldable pub test_connected : Sender → Sender
test_connected w =
    if w.connected then record w { place = selecting } else record w { place = ended }

-- The case of the select that takes a PDU; without one the loop waits. A Write to a socket that was
-- closed fails, and the loop goes on.
unfoldable pub take_pdu : Sender → List Pdu → Sender
take_pdu w [] = w
take_pdu w (pdu ∷ transmits) = record w {
  transmits = transmits;
  place = testing;
  wire = if w.open_socket then w.wire ++ write pdu else w.wire;
}

-- a step of sendLoop
unfoldable pub loop_turn : Sender → Sender
unfolding test_connected take_pdu
loop_turn w = elim w.place [
  | testing ↦ test_connected w
  | selecting ↦ take_pdu w w.transmits
  | ended ↦ w
]

unfoldable pub loop_turns : ℕ → Sender → Sender
loop_turns zero w = w
loop_turns (suc n) w = loop_turns n (loop_turn w)

-- Is sendLoop in its select with nothing to take?
unfoldable pub is_idle : Sender → Bool
is_idle w = elim w.place [
  | selecting ↦ elim w.transmits [ [] ↦ true | _ ∷ _ ↦ false ]
  | testing ↦ false
  | ended ↦ false
]

-- Disconnect up to its last line: `quit` is taken only by a loop that waits in its select.
unfoldable pub disconnect_sender : Sender → Sender
disconnect_sender w =
    if is_idle w
    then record w { connected = false; place = testing }
    else record w { connected = false }

-- the last line of Disconnect
unfoldable pub close_sender : Sender → Sender
close_sender w = record w { open_socket = false }
