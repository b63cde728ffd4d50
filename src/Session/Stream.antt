-- ===== src/Session/Stream.antt =====
-- The loop of StartRW on a stream of bytes (lib/client.go).
use stayrtr.Prelude.{
  ◌≢◌, ℕ, zero, suc, ◌-◌, ◌≤◌, ◌<◌, ◌≡◌, refl, arith, ap, ◌∙◌, sym, Bool, true, false, not, Option,
  some, List, [], ◌∷◌, ◌++◌, length, be16, be32, length-drop, drop, leb, if◌then◌else◌, Bool-cases,
  All, ◌⊎◌, inl, inr,
}
use stayrtr.Pdu.{Pdu, message_max_size}
use stayrtr.Pdu.Write.{write}
use stayrtr.Pdu.Decode.{
  Result, ok, err, DecodeError, read_error, guard, ◌>>◌, ◌>>=◌, read_bytes, decode, decode_body,
  decode_from,
}
use stayrtr.Pdu.Received.{IsWire, received}
use stayrtr.Pdu.RoundTrip.{decode-write}
use stayrtr.Session.{
  ClientSession, SessionHandler, session_disconnect, session_pdu, session_loop, start_rw,
}

pub Result-cases :
    {A : Type 0} (r : Result A) → ((a : A) × (r ≡ ok a)) ⊎ ((e : DecodeError) × (r ≡ err e))
Result-cases (ok a) = inl (a, refl)
Result-cases (err e) = inr (e, refl)

-- What is left of the input has at most `n` bytes.
abbrev Leaves : ℕ → Result (Pdu × List ℕ) → Type 0
Leaves n (ok (_, rest)) = length rest ≤ n
Leaves n (err _) = Unit

guard-Leaves :
    (n : ℕ) (b : Bool) (e : DecodeError) (k : Result (Pdu × List ℕ))
    → Leaves n k
    → Leaves n (guard b e >> k)
guard-Leaves n true e k h = h
guard-Leaves n false e k h = tt

body-Leaves :
    (n : ℕ) (m : Result Pdu) (rest : List ℕ)
    → length rest ≤ n
    → Leaves n (m >>= λ pdu. ok (pdu, rest))
body-Leaves n (ok pdu) rest h = h
body-Leaves n (err e) rest h = tt

read_bytes-Leaves :
    (size : ℕ) (r : List ℕ) (f : List ℕ → Result Pdu)
    → Leaves (length r) (read_bytes size r >>= λ p. (f p.0 >>= λ pdu. ok (pdu, p.1)))
unfolding read_bytes
read_bytes-Leaves size r f = elim (Bool-cases (leb size (length r))) [
  | inl e ↦
      rw (e, read_bytes)
        (body-Leaves (length r) _ (drop size r) (omega (arith, length-drop size r)))
  | inr e ↦ rw (e, read_bytes) tt
]

Leaves-weaken : (n m : ℕ) (x : Result (Pdu × List ℕ)) → Leaves n x → n ≤ m → Leaves m x
Leaves-weaken n m (ok (_, rest)) h k = omega arith
Leaves-weaken n m (err e) h k = tt

decode-Leaves : (r : List ℕ) → Leaves (length r - 1) (decode (some r))
unfolding decode decode_from
decode-Leaves (v ∷ t ∷ s1 ∷ s0 ∷ l3 ∷ l2 ∷ l1 ∷ l0 ∷ r) =
    let len = be32 l3 l2 l1 l0 in
    guard-Leaves _ (leb 8 len) _ _ (
      guard-Leaves _ (leb len message_max_size) _ _ (
        Leaves-weaken (length r) _ _ (read_bytes-Leaves (len - 8) r (decode_body v t (be16 s1 s0)))
          (omega arith)))
decode-Leaves [] = tt
decode-Leaves (v ∷ []) = tt
decode-Leaves (v ∷ t ∷ []) = tt
decode-Leaves (v ∷ t ∷ s1 ∷ []) = tt
decode-Leaves (v ∷ t ∷ s1 ∷ s0 ∷ []) = tt
decode-Leaves (v ∷ t ∷ s1 ∷ s0 ∷ l3 ∷ []) = tt
decode-Leaves (v ∷ t ∷ s1 ∷ s0 ∷ l3 ∷ l2 ∷ []) = tt
decode-Leaves (v ∷ t ∷ s1 ∷ s0 ∷ l3 ∷ l2 ∷ l1 ∷ []) = tt

-- Decode takes at least one byte of an input that is not empty.
decode-shorter :
    (r : List ℕ) (pdu : Pdu) (rest : List ℕ)
    → decode (some r) ≡ ok (pdu, rest)
    → length rest ≤ length r - 1
decode-shorter r pdu rest e = rw e at (decode-Leaves r)

decode-nil : (pdu : Pdu) (rest : List ℕ) → decode (some []) ≢ ok (pdu, rest)
unfolding decode decode_from
decode-nil pdu rest e = cc

pub decode-end : decode (some []) ≡ err read_error
unfolding decode decode_from
decode-end = refl

pub decode-below :
    (r : List ℕ) (pdu : Pdu) (rest : List ℕ)
    → decode (some r) ≡ ok (pdu, rest)
    → length rest < length r
decode-below [] pdu rest e = absurd (decode-nil pdu rest e)
decode-below (x ∷ r) pdu rest e = omega (arith, decode-shorter (x ∷ r) pdu rest e)

-- The bytes of one PDU after the other.
abbrev pub write_all : List Pdu → List ℕ
write_all [] = []
write_all (p ∷ pdus) = write p ++ write_all pdus

module _ {H : Type 0} (handler : SessionHandler H) where
  -- what the loop does with the result of Decode
  abbrev pub after : ℕ → H × ClientSession → Result (Pdu × List ℕ) → Option (H × ClientSession)
  after fuel st (ok (dec, rest)) = session_loop handler fuel (session_pdu handler st dec) rest
  after fuel st (err e) = some (session_disconnect handler st)

  pub loop-off :
      (fuel : ℕ) (s : H) (c : ClientSession) (bytes : List ℕ)
      → c.connected ≡ false
      → session_loop handler (suc fuel) (s, c) bytes ≡ some (s, c)
  unfolding session_loop
  loop-off fuel s c bytes e =
      ap (λ b. if not b then some (s, c) else after fuel (s, c) (decode (some bytes))) e

  pub loop-on :
      (fuel : ℕ) (s : H) (c : ClientSession) (bytes : List ℕ)
      → c.connected ≡ true
      → session_loop handler (suc fuel) (s, c) bytes ≡ after fuel (s, c) (decode (some bytes))
  unfolding session_loop
  loop-on fuel s c bytes e =
      ap (λ b. if not b then some (s, c) else after fuel (s, c) (decode (some bytes))) e

  -- The loop ends, with more rounds than bytes.
  session_loop_total :
      (fuel : ℕ) (st : H × ClientSession) (bytes : List ℕ)
      → length bytes < fuel
      → (end : H × ClientSession) × (session_loop handler fuel st bytes ≡ some end)
  session_loop_total zero st bytes h = absurd (omega arith)
  session_loop_total (suc fuel) (s, c) bytes h = elim (Bool-cases c.connected) [
    | inr e ↦ ((s, c), loop-off fuel s c bytes e)
    | inl e ↦ elim (Result-cases (decode (some bytes))) [
      | inr (x, p) ↦
          (session_disconnect handler (s, c), loop-on fuel s c bytes e ∙ ap (after fuel (s, c)) p)
      | inl ((dec, rest), p) ↦
          let (end, q) =
            session_loop_total fuel (session_pdu handler (s, c) dec) rest
              (omega (arith, decode-below bytes dec rest p)) in
          (end, loop-on fuel s c bytes e ∙ ap (after fuel (s, c)) p ∙ q)
    ]
  ]

  -- A session ends on every stream of bytes that ends: the rounds of its loop are enough.
  pub start_rw_total :
      (h : H) (c : ClientSession) (bytes : List ℕ)
      → (end : H × ClientSession) × (start_rw handler (h, c) bytes ≡ some end)
  unfolding start_rw
  start_rw_total h c bytes = session_loop_total (suc (length bytes)) _ bytes (omega arith)

  -- one PDU after the other, until the session is disconnected
  abbrev pub session_pdus : H × ClientSession → List Pdu → H × ClientSession
  session_pdus st [] = st
  session_pdus (s, c) (p ∷ pdus) =
      if not c.connected
      then (s, c)
      else session_pdus (session_pdu handler (s, c) (received p)) pdus

  -- the end of the stream
  abbrev pub hang_up : H × ClientSession → H × ClientSession
  hang_up (s, c) = if not c.connected then (s, c) else session_disconnect handler (s, c)

  session_loop-write_all :
      (pdus : List Pdu) (fuel : ℕ) (s : H) (c : ClientSession)
      → All IsWire pdus
      → length (write_all pdus) < fuel
      → session_loop handler fuel (s, c) (write_all pdus)
        ≡ some (hang_up (session_pdus (s, c) pdus))
  session_loop-write_all pdus zero s c h k = absurd (omega arith)
  session_loop-write_all [] (suc fuel) s c h k = elim (Bool-cases c.connected) [
    | inr e ↦
        loop-off fuel s c [] e
        ∙ ap (λ b. some (if not b then (s, c) else session_disconnect handler (s, c))) (sym e)
    | inl e ↦
        loop-on fuel s c [] e
        ∙ ap (after fuel (s, c)) decode-end
        ∙ ap (λ b. some (if not b then (s, c) else session_disconnect handler (s, c))) (sym e)
  ]
  session_loop-write_all (p ∷ pdus) (suc fuel) s c (h, hs) k = elim (Bool-cases c.connected) [
    | inr e ↦
        loop-off fuel s c (write_all (p ∷ pdus)) e
        ∙ ap (λ b. some (if not b then (s, c) else session_disconnect handler (s, c))) (sym e)
        ∙ ap (λ b. some (hang_up (if not b then (s, c) else next))) (sym e)
    | inl e ↦
        loop-on fuel s c (write_all (p ∷ pdus)) e
        ∙ ap (after fuel (s, c)) d
        ∙ session_loop-write_all pdus fuel one.0 one.1 hs
            (omega (arith, decode-below (write_all (p ∷ pdus)) (received p) (write_all pdus) d))
        ∙ ap (λ b. some (hang_up (if not b then (s, c) else next))) (sym e)
  ]
    where
      one : H × ClientSession
      one = session_pdu handler (s, c) (received p)

      next : H × ClientSession
      next = session_pdus one pdus

      d : decode (some (write p ++ write_all pdus)) ≡ ok (received p, write_all pdus)
      d = decode-write p (write_all pdus) h

  -- Of the bytes of a list of PDUs that are in range, a session hands its handler every PDU in the
  -- order of the list, each as the wire keeps it, until one of them ends the session, and it is
  -- disconnected at the end.
  pub start_rw-write_all :
      (h : H) (c : ClientSession) (pdus : List Pdu)
      → All IsWire pdus
      → start_rw handler (h, c) (write_all pdus)
        ≡ some (
            hang_up
              (session_pdus (handler.client_connected h (record c { connected = true })) pdus))
  unfolding start_rw
  start_rw-write_all h c pdus w =
      let st : H × ClientSession = handler.client_connected h (record c { connected = true }) in
      session_loop-write_all pdus (suc (length (write_all pdus))) st.0 st.1 w (omega arith)
