-- ===== src/Session/Listener.antt =====
-- A handler whose HandlePDU only changes its own state and may disconnect the session, as those of
-- cmd/rtrdump/rtrdump.go and cmd/rtrmon/rtrmon.go do.
use stayrtr.Prelude.{
  ◌≡◌, refl, arith, ap, ◌∙◌, sym, Bool, true, false, not, some, List, [], ◌∷◌, if◌then◌else◌,
  Bool-cases, inl, inr, All, ◌&&◌, ◌==◌,
}
use stayrtr.Pdu.{Pdu, get_version, protocol_version_0, protocol_version_1}
use stayrtr.Pdu.Received.{IsWire, received}
use stayrtr.Session.{
  ClientSession, SessionHandler, downgrade, session_disconnect, session_pdu, start_rw,
}
use stayrtr.Session.Stream.{write_all, session_pdus, hang_up, start_rw-write_all}

-- A PDU that fits its fields and is the same after a trip over the wire.
abbrev pub IsKept : Pdu → Type 0
IsKept p = IsWire p × (received p ≡ p)

abbrev pub leave : Bool → ClientSession → ClientSession
leave stop cs = record cs { connected = cs.connected && not stop }

-- The handler, from its HandlePDU, which says whether it disconnects the session, and from what its
-- ClientConnected does with the session.
abbrev pub listener :
    {H : Type 0} → (H → Pdu → H × Bool) → (H → ClientSession → ClientSession) → SessionHandler H
listener step greet = record {
  client_connected = λ h cs. (h, greet h cs);
  handle_pdu = λ h cs pdu. ((step h pdu).0, leave (step h pdu).1 cs);
  client_disconnected = λ h. h;
}

-- One PDU after the other, up to the one that ends the session.
abbrev pub until_stop : {H : Type 0} → (H → Pdu → H × Bool) → H → List Pdu → H
until_stop step h [] = h
until_stop step h (p ∷ pdus) =
    let rest = until_stop step (step h p).0 pdus in if (step h p).1 then (step h p).0 else rest

pub downgrade-connected : (cs : ClientSession) (p : Pdu) → (downgrade cs p).connected ≡ cs.connected
unfolding downgrade
downgrade-connected cs p =
    elim (Bool-cases
      ((cs.version == protocol_version_1) && (get_version p == protocol_version_0))) [
        | inr e ↦ rw (e, downgrade) refl
        | inl e ↦ elim (Bool-cases cs.has_log) [
          | inl e2 ↦
              ap
                (λ b.
                  (if b
                    then (if cs.has_log then record cs { version = 0 } else cs)
                    else cs).connected)
                e
              ∙ ap (λ b. (if b then record cs { version = 0 } else cs).connected) e2
          | inr e2 ↦
              ap
                (λ b.
                  (if b
                    then (if cs.has_log then record cs { version = 0 } else cs)
                    else cs).connected)
                e
              ∙ ap (λ b. (if b then record cs { version = 0 } else cs).connected) e2
        ]
      ]

pub All-IsWire : (pdus : List Pdu) → All IsKept pdus → All IsWire pdus
All-IsWire [] k = tt
All-IsWire (p ∷ pdus) ((w, _), ks) = (w, All-IsWire pdus ks)

module _ {H : Type 0} (step : H → Pdu → H × Bool) (greet : H → ClientSession → ClientSession) where
  abbrev listening : SessionHandler H
  listening = listener step greet

  hung_up :
      (h : H) (cs : ClientSession) → cs.connected ≡ false → hang_up listening (h, cs) ≡ (h, cs)
  hung_up h cs e = ap (λ b. if not b then (h, cs) else session_disconnect listening (h, cs)) e

  ended :
      (pdus : List Pdu) (h : H) (cs : ClientSession)
      → cs.connected ≡ false
      → hang_up listening (session_pdus listening (h, cs) pdus) ≡ (h, cs)
  ended [] h cs e = hung_up h cs e
  ended (p ∷ pdus) h cs e =
      let next = session_pdus listening (session_pdu listening (h, cs) (received p)) pdus in
      ap (λ b. hang_up listening (if not b then (h, cs) else next)) e ∙ hung_up h cs e

  pub leave-true :
      (stop : Bool) (cs : ClientSession) → stop ≡ true → (leave stop cs).connected ≡ false
  leave-true stop cs e = ground (arith, e)

  pub leave-false :
      (stop : Bool) (cs : ClientSession)
      → stop ≡ false
      → cs.connected ≡ true
      → (leave stop cs).connected ≡ true
  leave-false stop cs e c = ground (arith, e, c)

  pub heard :
      (pdus : List Pdu) (h : H) (cs : ClientSession)
      → cs.connected ≡ true
      → All IsKept pdus
      → (end : ClientSession) × (hang_up listening (session_pdus listening (h, cs) pdus)
          ≡ (until_stop step h pdus, end))
        × (end.connected ≡ false)
  unfolding session_disconnect session_pdu
  heard [] h cs e k = (
    record cs { connected = false },
    ap (λ b. if not b then (h, cs) else session_disconnect listening (h, cs)) e,
    refl,
  )
  heard (p ∷ pdus) h cs e ((w, same), ks) =
      let next : H = (step h p).0 in
      let later : H = until_stop step next pdus in
      let read : ClientSession = leave (step h p).1 (downgrade cs p) in
      let arrives : hang_up listening (session_pdus listening (h, cs) (p ∷ pdus))
          ≡ hang_up listening (session_pdus listening (next, read) pdus) =
        ap
          (λ b. hang_up listening (
            if not b
            then (h, cs)
            else session_pdus listening (session_pdu listening (h, cs) (received p)) pdus))
          e
        ∙ ap
            (λ q. hang_up listening (session_pdus listening (session_pdu listening (h, cs) q) pdus))
            same in
      elim (Bool-cases (step h p).1) [
        | inl stops ↦
            let off : read.connected ≡ false = leave-true (step h p).1 (downgrade cs p) stops in
            (
              read,
              arrives
                  ∙ ended pdus next read off
                  ∙ ap (λ b. (if b then next else later, read)) (sym stops),
              off,
            )
        | inr goes ↦
            let on : read.connected ≡ true =
              leave-false (step h p).1 (downgrade cs p) goes (downgrade-connected cs p ∙ e) in
            let (end, q, off) = heard pdus next read on ks in
            (end, arrives ∙ q ∙ ap (λ b. (if b then next else later, end)) (sym goes), off)
      ]

  -- On the bytes of PDUs that the wire keeps, such a handler is left with its state after the PDUs up
  -- to the one that ends the session, in their order, and the session is disconnected. This is of a
  -- handler that leaves the session connected when it is connected.
  pub start_rw-until_stop :
      (h : H) (cs : ClientSession) (pdus : List Pdu)
      → (greet h (record cs { connected = true })).connected ≡ true
      → All IsKept pdus
      → (end : ClientSession) × (start_rw listening (h, cs) (write_all pdus)
          ≡ some (until_stop step h pdus, end))
        × (end.connected ≡ false)
  start_rw-until_stop h cs pdus on k =
      let (end, q, off) = heard pdus h (greet h (record cs { connected = true })) on k in
      (end, start_rw-write_all listening h cs pdus (All-IsWire pdus k) ∙ ap some q, off)
