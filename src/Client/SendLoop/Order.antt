-- ===== src/Client/SendLoop/Order.antt =====
-- What sendLoop has written of the PDUs that were sent (lib/server.go and lib/client.go).
use stayrtr.Prelude.{
  ◌≤◌, ◌≡◌, refl, arith, ap, ◌∙◌, sym, subst, Bool, ◌⊎◌, true, false, none, some, List, [], ◌∷◌,
  ◌++◌, length, length-append, append_assoc, append-nil, ltb, if◌then◌else◌, Bool-cases, inl, inr,
}
use stayrtr.Pdu.{Pdu}
use stayrtr.Pdu.Write.{write}
use stayrtr.Session.Stream.{write_all}
use stayrtr.Client.SendLoop.{
  testing, selecting, ended, Sender, new_sender, put_pdu, test_connected, take_pdu, loop_turn,
  is_idle, disconnect_sender, close_sender,
}

-- What a connection comes to, and the PDUs that were put into its channel, in whichever order its
-- sendLoop, its senders and Disconnect have their turns.
pub data Sends : Sender → List Pdu → Type 0 where
  begun : Sends new_sender []
  put :
      {w : Sender} {sent : List Pdu}
      → (w' : Sender) (pdu : Pdu) → Sends w sent
      → put_pdu w pdu ≡ some w'
      → Sends w' (sent ++ (pdu ∷ []))
  turned : {w : Sender} {sent : List Pdu} → Sends w sent → Sends (loop_turn w) sent
  disconnected : {w : Sender} {sent : List Pdu} → Sends w sent → Sends (disconnect_sender w) sent
  closed :
      {w : Sender} {sent : List Pdu}
      → Sends w sent
      → w.connected ≡ false
      → Sends (close_sender w) sent

-- Nothing was lost, or Disconnect has closed the socket.
abbrev pub IsOpen : Bool → Bool → List Pdu → Type 0
IsOpen connected open_socket lost =
    ((open_socket ≡ true) × (lost ≡ [])) ⊎ ((open_socket ≡ false) × (connected ≡ false))

-- Of the PDUs that were sent, the first ones were written, each whole and in their order; the next ones
-- were taken and lost, none while the socket is open; and the others still wait in the channel, of
-- which there are no more than it holds.
pub record IsWritten (w : Sender) (sent : List Pdu) : Type 0 where
  pub taken : List Pdu
  pub lost : List Pdu
  pub all : sent ≡ taken ++ (lost ++ w.transmits)
  pub written : w.wire ≡ write_all taken
  pub opened : IsOpen w.connected w.open_socket lost
  pub room : length w.transmits ≤ 256

-- the fields that count, whatever the others are
kept :
    {w : Sender} {sent : List Pdu}
    → (taken lost : List Pdu) → sent ≡ taken ++ (lost ++ w.transmits)
    → w.wire ≡ write_all taken
    → IsOpen w.connected w.open_socket lost
    → length w.transmits ≤ 256
    → IsWritten w sent
kept taken lost all written opened room = record {
  taken = taken;
  lost = lost;
  all = all;
  written = written;
  opened = opened;
  room = room;
}

-- a connection stays open or closed when it is disconnected
disconnected-IsOpen :
    (connected open_socket : Bool) (lost : List Pdu)
    → IsOpen connected open_socket lost
    → IsOpen false open_socket lost
disconnected-IsOpen connected open_socket lost (inl (on, nil)) = inl (on, nil)
disconnected-IsOpen connected open_socket lost (inr (off, quit)) = inr (off, refl)

pub write_all-append : (xs ys : List Pdu) → write_all (xs ++ ys) ≡ write_all xs ++ write_all ys
write_all-append [] ys = refl
write_all-append (x ∷ xs) ys =
    ap (λ l. write x ++ l) (write_all-append xs ys)
    ∙ sym (append_assoc (write x) (write_all xs) (write_all ys))

put_pdu-IsWritten :
    (w w' : Sender) (sent : List Pdu) (pdu : Pdu)
    → put_pdu w pdu ≡ some w'
    → IsWritten w sent
    → IsWritten w' (sent ++ (pdu ∷ []))
unfolding put_pdu
put_pdu-IsWritten w w' sent pdu e h =
    let more : Sender = record w { transmits = w.transmits ++ (pdu ∷ []) } in
    elim (Bool-cases (ltb (length w.transmits) 256)) [
      | inr full ↦
          let refused : put_pdu w pdu ≡ none = ap (λ b. if b then some more else none) full in
          absurd (cc)
      | inl free ↦
          let given : put_pdu w pdu ≡ some more = ap (λ b. if b then some more else none) free in
          let same : w' ≡ more = cc in
          subst (λ x. IsWritten x (sent ++ (pdu ∷ []))) (sym same)
            (record {
              taken = h.taken;
              lost = h.lost;
              all =
                  ap (λ l. l ++ (pdu ∷ [])) h.all
                  ∙ append_assoc h.taken (h.lost ++ w.transmits) (pdu ∷ [])
                  ∙ ap (λ l. h.taken ++ l) (append_assoc h.lost w.transmits (pdu ∷ []));
              written = h.written;
              opened = h.opened;
              room = ground (arith, free, length-append w.transmits (pdu ∷ []));
            })
    ]

take_pdu-IsWritten :
    (w : Sender) (sent transmits : List Pdu)
    → w.transmits ≡ transmits
    → IsWritten w sent
    → IsWritten (take_pdu w transmits) sent
unfolding take_pdu
take_pdu-IsWritten w sent [] e h = h
take_pdu-IsWritten w sent (p ∷ transmits) e h =
    let less : length transmits ≤ 256 = ground (arith, h.room, ap length e) in
    let all : sent ≡ h.taken ++ (h.lost ++ (p ∷ transmits)) =
      h.all ∙ ap (λ l. h.taken ++ (h.lost ++ l)) e in
    elim h.opened [
      | inl (on, nil) ↦
          kept (h.taken ++ (p ∷ [])) []
            (all
              ∙ ap (λ l. h.taken ++ (l ++ (p ∷ transmits))) nil
              ∙ sym (append_assoc h.taken (p ∷ []) transmits))
            (ap (λ b. if b then w.wire ++ write p else w.wire) on
              ∙ ap (λ l. l ++ write p) h.written
              ∙ ap (λ l. write_all h.taken ++ l) (sym (append-nil (write p)))
              ∙ sym (write_all-append h.taken (p ∷ [])))
            (inl (on, refl)) less
      | inr (off, quit) ↦
          kept h.taken (h.lost ++ (p ∷ []))
            (all ∙ ap (λ l. h.taken ++ l) (sym (append_assoc h.lost (p ∷ []) transmits)))
            (ap (λ b. if b then w.wire ++ write p else w.wire) off ∙ h.written) (inr (off, quit))
            less
    ]

loop_turn-IsWritten :
    (w : Sender) (sent : List Pdu) → IsWritten w sent → IsWritten (loop_turn w) sent
unfolding loop_turn test_connected
loop_turn-IsWritten w sent h =
    elim w.place
      as (λ p.
        IsWritten
          (elim p [ testing ↦ test_connected w | selecting ↦ take_pdu w w.transmits | ended ↦ w ])
          sent) [
            | testing ↦
                elim w.connected
                  as (λ b.
                    IsWritten
                      (if b then record w { place = selecting } else record w { place = ended })
                      sent) [
                        | true ↦ kept h.taken h.lost h.all h.written h.opened h.room
                        | false ↦ kept h.taken h.lost h.all h.written h.opened h.room
                      ]
            | selecting ↦ take_pdu-IsWritten w sent w.transmits refl h
            | ended ↦ h
          ]

disconnect_sender-IsWritten :
    (w : Sender) (sent : List Pdu) → IsWritten w sent → IsWritten (disconnect_sender w) sent
unfolding disconnect_sender
disconnect_sender-IsWritten w sent h =
    let quit = disconnected-IsOpen w.connected w.open_socket h.lost h.opened in
    elim (is_idle w)
      as (λ b.
        IsWritten
          (if b
            then record w { connected = false; place = testing }
            else record w { connected = false })
          sent) [
            | true ↦ kept h.taken h.lost h.all h.written quit h.room
            | false ↦ kept h.taken h.lost h.all h.written quit h.room
          ]

close_sender-IsWritten :
    (w : Sender) (sent : List Pdu)
    → w.connected ≡ false
    → IsWritten w sent
    → IsWritten (close_sender w) sent
unfolding close_sender
close_sender-IsWritten w sent off h = kept h.taken h.lost h.all h.written (inr (refl, off)) h.room

-- In every state that a connection comes to, whatever the order in which its sendLoop, its senders and
-- the steps of Disconnect have their turns, the bytes that sendLoop has written are those of the first
-- PDUs that were sent, each whole and in the order in which they were sent; the next PDUs were taken
-- from the channel and lost, but none of them before Disconnect has closed the socket; and the others
-- still wait in the channel, 256 at most. This is of a connection whose writes fail only once
-- Disconnect has closed it.
pub Sends-IsWritten : {w : Sender} {sent : List Pdu} → Sends w sent → IsWritten w sent
unfolding new_sender
Sends-IsWritten begun = kept [] [] refl refl (inl (refl, refl)) (omega arith)
Sends-IsWritten (put {w = w} {sent = sent} w' pdu s e) =
    put_pdu-IsWritten w w' sent pdu e (Sends-IsWritten s)
Sends-IsWritten (turned {w = w} {sent = sent} s) = loop_turn-IsWritten w sent (Sends-IsWritten s)
Sends-IsWritten (disconnected {w = w} {sent = sent} s) =
    disconnect_sender-IsWritten w sent (Sends-IsWritten s)
Sends-IsWritten (closed {w = w} {sent = sent} s off) =
    close_sender-IsWritten w sent off (Sends-IsWritten s)
