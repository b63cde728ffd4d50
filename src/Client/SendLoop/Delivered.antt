-- ===== src/Client/SendLoop/Delivered.antt =====
-- That sendLoop writes what was sent, and what the other side makes of it (lib/server.go and
-- lib/client.go).
use stayrtr.Prelude.{
  ℕ, suc, ◌*◌, ◌≤◌, ◌≡◌, refl, arith, ap, ◌∙◌, sym, subst, Bool, true, false, none, some, List, [],
  ◌∷◌, ◌++◌, length, append_assoc, append-nil, ltb, if◌then◌else◌, Bool-cases, inl, inr, All,
}
use stayrtr.Pdu.{Pdu}
use stayrtr.Pdu.Write.{write}
use stayrtr.Session.{ClientSession, start_rw}
use stayrtr.Session.Stream.{write_all}
use stayrtr.Session.Listener.{IsKept, listener, until_stop, start_rw-until_stop}
use stayrtr.Client.SendLoop.{
  Place, testing, selecting, ended, Sender, new_sender, put_pdu, test_connected, take_pdu,
  loop_turn, loop_turns, is_idle, disconnect_sender, close_sender,
}
use stayrtr.Client.SendLoop.Order.{
  Sends, begun, put, turned, disconnected, closed, IsOpen, Sends-IsWritten, write_all-append,
}

-- A loop that has ended was disconnected.
abbrev IsLive : Place → Bool → Type 0
IsLive testing connected = Unit
IsLive selecting connected = Unit
IsLive ended connected = connected ≡ false

put_pdu-IsLive :
    (w w' : Sender) (pdu : Pdu)
    → put_pdu w pdu ≡ some w'
    → IsLive w.place w.connected
    → IsLive w'.place w'.connected
unfolding put_pdu
put_pdu-IsLive w w' pdu e h =
    let more : Sender = record w { transmits = w.transmits ++ (pdu ∷ []) } in
    elim (Bool-cases (ltb (length w.transmits) 256)) [
      | inr full ↦
          let refused : put_pdu w pdu ≡ none = ap (λ b. if b then some more else none) full in
          absurd (cc)
      | inl free ↦
          let given : put_pdu w pdu ≡ some more = ap (λ b. if b then some more else none) free in
          let same : w' ≡ more = cc in subst (λ x. IsLive x.place x.connected) (sym same) h
    ]

loop_turn-IsLive :
    (w : Sender) → IsLive w.place w.connected → IsLive (loop_turn w).place (loop_turn w).connected
unfolding loop_turn test_connected take_pdu
loop_turn-IsLive w h =
    let go : Place → Sender =
      λ p. elim p [ testing ↦ test_connected w | selecting ↦ take_pdu w w.transmits | ended ↦ w ] in
    elim w.place as (λ p. IsLive (go p).place (go p).connected) [
      | testing ↦
          let test : Bool → Sender =
            λ b. if b then record w { place = selecting } else record w { place = ended } in
          elim (Bool-cases w.connected) [
            | inl e ↦ subst (λ b. IsLive (test b).place (test b).connected) (sym e) tt
            | inr e ↦ subst (λ b. IsLive (test b).place (test b).connected) (sym e) e
          ]
      | selecting ↦
          elim w.transmits as (λ ts. IsLive (take_pdu w ts).place (take_pdu w ts).connected) [
            | [] ↦ h
            | p ∷ ts ↦ tt
          ]
      | ended ↦ h
    ]

disconnect_sender-IsLive :
    (w : Sender) → IsLive (disconnect_sender w).place (disconnect_sender w).connected
unfolding disconnect_sender
disconnect_sender-IsLive w =
    let go : Bool → Sender = λ b.
      if b
      then record w { connected = false; place = testing }
      else record w { connected = false } in
    elim (is_idle w) as (λ b. IsLive (go b).place (go b).connected) [
      | true ↦ tt
      | false ↦ elim w.place as (λ p. IsLive p false) [
        | testing ↦ tt
        | selecting ↦ tt
        | ended ↦ refl
      ]
    ]

Sends-IsLive : {w : Sender} {sent : List Pdu} → Sends w sent → IsLive w.place w.connected
unfolding new_sender close_sender
Sends-IsLive begun = tt
Sends-IsLive (put {w = w} w' pdu s e) = put_pdu-IsLive w w' pdu e (Sends-IsLive s)
Sends-IsLive (turned {w = w} s) = loop_turn-IsLive w (Sends-IsLive s)
Sends-IsLive (disconnected {w = w} s) = disconnect_sender-IsLive w
Sends-IsLive (closed {w = w} s off) = Sends-IsLive s

still_open :
    (connected open_socket : Bool) (lost : List Pdu)
    → connected ≡ true
    → IsOpen connected open_socket lost
    → (open_socket ≡ true) × (lost ≡ [])
still_open connected open_socket lost on (inl h) = h
still_open connected open_socket lost on (inr (off, quit)) = absurd (ground (arith, on, quit))

abbrev placed : Place → List Pdu → List ℕ → Sender
placed place transmits wire = record {
  connected = true;
  open_socket = true;
  transmits = transmits;
  place = place;
  wire = wire;
}

-- After so many steps the loop has written all that was in the channel.
abbrev Drains : ℕ → Sender → Type 0
Drains bound w =
    (n : ℕ) × (n ≤ bound)
    × ((loop_turns n w).transmits ≡ [])
    × ((loop_turns n w).wire ≡ w.wire ++ write_all w.transmits)

drain : (ps : List Pdu) (wire : List ℕ) → Drains (2 * length ps) (placed testing ps wire)
unfolding loop_turns loop_turn test_connected take_pdu
drain [] wire = (0, omega arith, refl, sym (append-nil wire))
drain (p ∷ ps) wire =
    let (n, few, gone, written) = drain ps (wire ++ write p) in
    (suc (suc n), omega (arith, few), gone, written ∙ append_assoc wire (write p) (write_all ps))

drains :
    (connected open_socket : Bool) (place : Place) (ps : List Pdu) (wire : List ℕ)
    → connected ≡ true
    → open_socket ≡ true
    → IsLive place connected
    → Drains (2 * length ps) (record {
      connected = connected;
      open_socket = open_socket;
      transmits = ps;
      place = place;
      wire = wire;
    })
unfolding loop_turns loop_turn test_connected take_pdu
drains false open_socket place ps wire e on h = absurd (ground arith)
drains true false place ps wire e on h = absurd (ground arith)
drains true true testing ps wire e on h = drain ps wire
drains true true selecting [] wire e on h = (0, omega arith, refl, sym (append-nil wire))
drains true true selecting (p ∷ ps) wire e on h =
    let (n, few, gone, written) = drain ps (wire ++ write p) in
    (suc n, omega (arith, few), gone, written ∙ append_assoc wire (write p) (write_all ps))
drains true true ended ps wire e on h = absurd (ground arith)

module _ {H : Type 0} (step : H → Pdu → H × Bool) (greet : H → ClientSession → ClientSession) where
  -- From every state that a connection comes to while it is connected, at most 512 steps of sendLoop
  -- empty the channel; and a session whose handler only changes its own state, where its
  -- ClientConnected leaves it connected, makes of the bytes that are written then what its handler
  -- makes of the PDUs that were sent, in their order, up to the one that ends the session. This is of
  -- PDUs that are the same after a trip over the wire.
  pub start_rw-loop_turns :
      {w : Sender} {sent : List Pdu}
      → (h : H) (cs : ClientSession) → Sends w sent
      → w.connected ≡ true
      → All IsKept sent
      → (greet h (record cs { connected = true })).connected ≡ true
      → (n : ℕ) × (n ≤ 512)
        × ((loop_turns n w).transmits ≡ [])
        × (end : ClientSession) × (start_rw (listener step greet) (h, cs) (loop_turns n w).wire
            ≡ some (until_stop step h sent, end))
  start_rw-loop_turns {w} {sent} h cs s on kept greeted =
      let i = Sends-IsWritten s in
      let (socket, nothing) = still_open w.connected w.open_socket i.lost on i.opened in
      let (n, few, gone, written) =
        drains w.connected w.open_socket w.place w.transmits w.wire on socket (Sends-IsLive s) in
      let wired : (loop_turns n w).wire ≡ write_all sent =
        written
        ∙ ap (λ l. l ++ write_all w.transmits) i.written
        ∙ sym (write_all-append i.taken w.transmits)
        ∙ ap write_all (ap (λ l. i.taken ++ (l ++ w.transmits)) (sym nothing) ∙ sym i.all) in
      let (end, heard, _) = start_rw-until_stop step greet h cs sent greeted kept in
      (
        n,
        omega (arith, few, i.room),
        gone,
        end,
        ap (start_rw (listener step greet) (h, cs)) wired ∙ heard,
      )
