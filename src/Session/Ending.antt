-- ===== src/Session/Ending.antt =====
-- What StartRW returns to its caller, besides what it does (lib/client.go).
use stayrtr.Prelude.{
  ℕ, zero, suc, ◌<◌, ◌≡◌, refl, arith, ap, ◌∙◌, sym, Bool, true, false, not, Option, none, some,
  List, [], ◌∷◌, ◌++◌, length, All, Bool-cases, inl, inr, if◌then◌else◌,
}
use stayrtr.Pdu.{Pdu}
use stayrtr.Pdu.Write.{write}
use stayrtr.Pdu.Decode.{Result, ok, err, DecodeError, read_error, decode}
use stayrtr.Pdu.Received.{IsWire, received}
use stayrtr.Pdu.RoundTrip.{decode-write}
use stayrtr.Session.{
  ClientSession, SessionHandler, downgrade, session_disconnect, session_pdu, session_loop, start_rw,
}
use stayrtr.Session.Stream
use stayrtr.Session.Stream.{
  Result-cases, loop-off, loop-on, write_all, session_pdus, hang_up, decode-below, decode-end,
}
use stayrtr.Session.Listener.{
  IsKept, listener, leave, leave-true, leave-false, downgrade-connected, until_stop, heard,
  All-IsWire,
}

module _ {H : Type 0} (handler : SessionHandler H) where
  -- The loop of StartRW, as `session_loop`, with the error that it returns; none is nil.
  unfoldable pub session_result :
      ℕ → H × ClientSession → List ℕ → Option ((H × ClientSession) × Option DecodeError)
  session_result zero st bytes = none
  session_result (suc fuel) (h, c) bytes =
      if not c.connected then some ((h, c), none) else elim (decode (some bytes)) [
        | err e ↦ some (session_disconnect handler (h, c), some e)
        | ok (dec, rest) ↦ session_result fuel (session_pdu handler (h, c) dec) rest
      ]

  -- StartWithConn and StartRW, with the error
  unfoldable pub start_result :
      H × ClientSession → List ℕ → Option ((H × ClientSession) × Option DecodeError)
  start_result (h, c) bytes =
      session_result (suc (length bytes))
        (handler.client_connected h (record c { connected = true })) bytes

  -- what the loop does with the result of Decode
  abbrev after :
      ℕ
      → H × ClientSession
      → Result (Pdu × List ℕ)
      → Option ((H × ClientSession) × Option DecodeError)
  after fuel st (ok (dec, rest)) = session_result fuel (session_pdu handler st dec) rest
  after fuel st (err e) = some (session_disconnect handler st, some e)

  -- the end of the stream, and what StartRW returns then
  abbrev pub ending : H × ClientSession → (H × ClientSession) × Option DecodeError
  ending (s, c) = (hang_up handler (s, c), if not c.connected then none else some read_error)

  result-off :
      (fuel : ℕ) (s : H) (c : ClientSession) (bytes : List ℕ)
      → c.connected ≡ false
      → session_result (suc fuel) (s, c) bytes ≡ some ((s, c), none)
  unfolding session_result
  result-off fuel s c bytes e =
      ap (λ b. if not b then some ((s, c), none) else after fuel (s, c) (decode (some bytes))) e

  result-on :
      (fuel : ℕ) (s : H) (c : ClientSession) (bytes : List ℕ)
      → c.connected ≡ true
      → session_result (suc fuel) (s, c) bytes ≡ after fuel (s, c) (decode (some bytes))
  unfolding session_result
  result-on fuel s c bytes e =
      ap (λ b. if not b then some ((s, c), none) else after fuel (s, c) (decode (some bytes))) e

  -- where the session stands when the bytes are over
  abbrev end_of : Bool → H → ClientSession → (H × ClientSession) × Option DecodeError
  end_of b s c = (
    if not b then (s, c) else session_disconnect handler (s, c),
    if not b then none else some read_error,
  )

  session_result-write_all :
      (pdus : List Pdu) (fuel : ℕ) (s : H) (c : ClientSession)
      → All IsWire pdus
      → length (write_all pdus) < fuel
      → session_result fuel (s, c) (write_all pdus)
        ≡ some (ending (session_pdus handler (s, c) pdus))
  session_result-write_all pdus zero s c h k = absurd (omega arith)
  session_result-write_all [] (suc fuel) s c h k = elim (Bool-cases c.connected) [
    | inr e ↦ result-off fuel s c [] e ∙ ap (λ b. some (end_of b s c)) (sym e)
    | inl e ↦
        result-on fuel s c [] e
        ∙ ap (after fuel (s, c)) decode-end
        ∙ ap (λ b. some (end_of b s c)) (sym e)
  ]
  session_result-write_all (p ∷ pdus) (suc fuel) s c (h, hs) k = elim (Bool-cases c.connected) [
    | inr e ↦
        result-off fuel s c (write_all (p ∷ pdus)) e
        ∙ ap (λ b. some (end_of b s c)) (sym e)
        ∙ ap (λ b. some (ending (if not b then (s, c) else next))) (sym e)
    | inl e ↦
        result-on fuel s c (write_all (p ∷ pdus)) e
        ∙ ap (after fuel (s, c)) d
        ∙ session_result-write_all pdus fuel one.0 one.1 hs
            (omega (arith, decode-below (write_all (p ∷ pdus)) (received p) (write_all pdus) d))
        ∙ ap (λ b. some (ending (if not b then (s, c) else next))) (sym e)
  ]
    where
      one : H × ClientSession
      one = session_pdu handler (s, c) (received p)

      next : H × ClientSession
      next = session_pdus handler one pdus

      d : decode (some (write p ++ write_all pdus)) ≡ ok (received p, write_all pdus)
      d = decode-write p (write_all pdus) h

  -- the state of a result, without the error
  abbrev pub state_of :
      Option ((H × ClientSession) × Option DecodeError) → Option (H × ClientSession)
  state_of none = none
  state_of (some (st, e)) = some st

  session_result-session_loop :
      (fuel : ℕ) (s : H) (c : ClientSession) (bytes : List ℕ)
      → state_of (session_result fuel (s, c) bytes) ≡ session_loop handler fuel (s, c) bytes
  unfolding session_result session_loop
  session_result-session_loop zero s c bytes = refl
  session_result-session_loop (suc fuel) s c bytes = elim (Bool-cases c.connected) [
    | inr off ↦
        ap state_of (result-off fuel s c bytes off) ∙ sym (loop-off handler fuel s c bytes off)
    | inl on ↦
        ap state_of (result-on fuel s c bytes on)
        ∙ elim (Result-cases (decode (some bytes))) [
          | inr (x, p) ↦
              ap (λ r. state_of (after fuel (s, c) r)) p
              ∙ sym (ap (Stream.after handler fuel (s, c)) p)
          | inl ((dec, rest), p) ↦
              let (s', c') = session_pdu handler (s, c) dec in
              ap (λ r. state_of (after fuel (s, c) r)) p
              ∙ session_result-session_loop fuel s' c' rest
              ∙ sym (ap (Stream.after handler fuel (s, c)) p)
        ]
        ∙ sym (loop-on handler fuel s c bytes on)
  ]

  -- A session comes to the same state whether or not its error is asked for.
  pub start_result-start_rw :
      (h : H) (c : ClientSession) (bytes : List ℕ)
      → state_of (start_result (h, c) bytes) ≡ start_rw handler (h, c) bytes
  unfolding start_result start_rw
  start_result-start_rw h c bytes = session_result-session_loop (suc (length bytes)) _ _ bytes

module _ {H : Type 0} (step : H → Pdu → H × Bool) (greet : H → ClientSession → ClientSession) where
  -- Does one of the PDUs end the session?
  abbrev pub stops : H → List Pdu → Bool
  stops h [] = false
  stops h (p ∷ pdus) = let later = stops (step h p).0 pdus in if (step h p).1 then true else later

  stays_off :
      (pdus : List Pdu) (h : H) (cs : ClientSession)
      → cs.connected ≡ false
      → (session_pdus (listener step greet) (h, cs) pdus).1.connected ≡ false
  stays_off [] h cs off = off
  stays_off (p ∷ pdus) h cs off =
      ap
        (λ b.
          (if not b
            then (h, cs)
            else session_pdus (listener step greet)
                (session_pdu (listener step greet) (h, cs) (received p)) pdus).1.connected)
        off
      ∙ off

  connected-stops :
      (pdus : List Pdu) (h : H) (cs : ClientSession)
      → cs.connected ≡ true
      → All IsKept pdus
      → (session_pdus (listener step greet) (h, cs) pdus).1.connected ≡ not (stops h pdus)
  unfolding session_pdu
  connected-stops [] h cs on k = on
  connected-stops (p ∷ pdus) h cs on ((w, same), ks) =
      let next : H = (step h p).0 in
      let read : ClientSession = leave (step h p).1 (downgrade cs p) in
      ap
        (λ b.
          (if not b
            then (h, cs)
            else session_pdus (listener step greet)
                (session_pdu (listener step greet) (h, cs) (received p)) pdus).1.connected)
        on
      ∙ ap
          (λ q.
            (session_pdus (listener step greet) (session_pdu (listener step greet) (h, cs) q)
              pdus).1.connected)
          same
      ∙ elim (Bool-cases (step h p).1) [
        | inl e ↦
            stays_off pdus next read (leave-true step greet (step h p).1 (downgrade cs p) e)
            ∙ ap (λ b. not (if b then true else stops next pdus)) (sym e)
        | inr e ↦
            connected-stops pdus next read
              (leave-false step greet (step h p).1 (downgrade cs p) e
                (downgrade-connected cs p ∙ on))
              ks
            ∙ ap (λ b. not (if b then true else stops next pdus)) (sym e)
      ]

  -- On the bytes of PDUs that the wire keeps, StartRW returns no error exactly if the handler ends the
  -- session at one of them; if it ends it at none, the error is that of reading at the end of the
  -- bytes. The handler is left with its state after the PDUs up to the one that ends the session. This
  -- is of a handler that leaves the session connected when it is connected.
  pub start_result-write_all :
      (h : H) (cs : ClientSession) (pdus : List Pdu)
      → (greet h (record cs { connected = true })).connected ≡ true
      → All IsKept pdus
      → (end : ClientSession) × (start_result (listener step greet) (h, cs) (write_all pdus)
          ≡ some ((until_stop step h pdus, end), if stops h pdus then none else some read_error))
  unfolding start_result
  start_result-write_all h cs pdus on k =
      let c0 = greet h (record cs { connected = true }) in
      let (end, q, off) = heard step greet pdus h c0 on k in
      (
        end,
        session_result-write_all (listener step greet) pdus (suc (length (write_all pdus))) h c0
              (All-IsWire pdus k) (omega arith)
            ∙ ap (λ st. some (st, error_at (session_pdus (listener step greet) (h, c0) pdus).1)) q
            ∙ ap
                (λ b. some ((until_stop step h pdus, end), if not b then none else some read_error))
                (connected-stops pdus h c0 on k)
            ∙ ap (λ e. some ((until_stop step h pdus, end), e)) (not_not (stops h pdus)),
      )
    where
      error_at : ClientSession → Option DecodeError
      error_at c = if not c.connected then none else some read_error

      not_not :
          (b : Bool)
          → (if not (not b) then none else some read_error) ≡ (if b then none else some read_error)
      not_not true = refl
      not_not false = refl
