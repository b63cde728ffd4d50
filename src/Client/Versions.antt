-- ===== src/Client/Versions.antt =====
-- The versions that a client is answered in, and the bytes that a turn of its loop takes
-- (lib/server.go: checkVersion and Start).
use stayrtr.Prelude.{
  ℕ, ◌+◌, ◌≡◌, ◌≢◌, refl, arith, ap, ◌∙◌, true, false, not, ◌&&◌, List, [], ◌∷◌, ◌++◌, ◌==◌, ltb,
  ◌≤◌, if◌then◌else◌, codes, length, append_assoc,
}
use stayrtr.Pdu.{
  Pdu, reset_query, PduResetQuery, get_version, is_correct_pdu_version, set_version,
  error_bad_proto_version,
}
use stayrtr.Pdu.Write.{write}
use stayrtr.Pdu.Decode.{decode_bytes}
use stayrtr.Pdu.Received.{IsWire, received}
use stayrtr.Pdu.RoundTrip.{decode-write}
use stayrtr.Server.{Outcome, done}
use stayrtr.Client.{Client, send_pdu, send_raw_pdu, send_wrong_version_error, error_pdu}
use stayrtr.Client.Handlers.{
  World, on_client, client_disconnected, disconnect, handle_pdu, pass_simple_handler,
}
use stayrtr.Client.Loop.{check_version, enforce, receive_pdu, receive}
use stayrtr.Client.Answers.{sent, data_answer, no_data_answer, reset_query_answers}

-- A turn of the loop that reads the bytes of a PDU whose fields are in range, and any bytes behind
-- them, does what a turn with that PDU, as it is received, does; the bytes behind it are dropped.
receive-write :
    (w : World) (p : Pdu) (rest : List ℕ)
    → IsWire p
    → receive w (write p ++ rest) ≡ receive_pdu w (received p)
unfolding receive decode_bytes
receive-write w p rest h = rw (decode-write p rest h) refl

abbrev pub bad_version : Client → Pdu
bad_version c =
    set_version (error_pdu error_bad_proto_version (codes "Bad protocol version")) c.version

-- the state after a query in a bad version was refused
abbrev refused : World → World
refused w = on_client (disconnect w) (λ c. sent c (bad_version c ∷ []))

check_version_lem :
    (w : World) (version : ℕ)
    → w.client.versionset ≡ true
    → version ≢ w.client.version
    → check_version w version ≡ refused w
unfolding check_version disconnect send_wrong_version_error send_pdu send_raw_pdu
check_version_lem w version settled ne =
    let e : (version == w.client.version) ≡ false = ground arith in rw (settled, e) refl

enforce_lem : (w : World) (q : Pdu) → w.client.enforce_version ≡ false → enforce w q ≡ w
unfolding enforce
enforce_lem w q h =
    ap
      (λ b.
        if b && not (is_correct_pdu_version q w.client.version)
        then disconnect (on_client w send_wrong_version_error)
        else w)
      h

handle_pdu_lem :
    (w : World)
    → w.server.enforce_version ≡ false
    → w.client.version ≤ w.server.base_version
    → handle_pdu w ≡ w
unfolding handle_pdu
handle_pdu_lem w h k =
    let e : ltb w.server.base_version w.client.version ≡ false = ground arith in rw (h, e) refl

-- the answer to a Reset Query
abbrev pub reset_query_answer : World → List Pdu
reset_query_answer w =
    if ltb 0 (length w.server.vrp_list_serial)
    then data_answer w.client w.server.sess_id w.server.vrp_current_serial w.server.vrp_current
    else no_data_answer w.client

-- The turn for a Reset Query in another version than the settled one of its client disconnects the
-- client, and puts into its channel, behind what waits there, the error Bad Protocol Version and then
-- the answer to the query, in the old version, all the same: it does not end at the error. Whether the
-- client's sendLoop still takes them is another matter. This is of a channel with room for all of it,
-- of a client whose version is checked, of a client and a server that enforce no version, and of a
-- client version that is not above the server's.
pub bad_version_is_answered :
    (w : World) (p : PduResetQuery)
    → w.client.versionset ≡ true
    → w.client.disable_version_check ≡ false
    → w.client.enforce_version ≡ false
    → w.server.enforce_version ≡ false
    → w.client.version ≤ w.server.base_version
    → p.version ≢ w.client.version
    → length w.client.transmits + 1 + length (reset_query_answer w) ≤ 256
    → receive_pdu w (reset_query p)
      ≡ done (on_client (disconnect w) (λ c. sent c (bad_version w.client ∷ reset_query_answer w)))
unfolding receive_pdu get_version disconnect client_disconnected
bad_version_is_answered w p h1 h2 h3 h4 h5 h6 room =
    let q = reset_query p in
    ap (λ b. turn (if not b then check_version w p.version else w)) h2
    ∙ ap turn (check_version_lem w p.version h1 h6)
    ∙ ap (λ v. pass_simple_handler (handle_pdu v) q) (enforce_lem (refused w) q h3)
    ∙ ap (λ v. pass_simple_handler v q) (handle_pdu_lem (refused w) h4 h5)
    ∙ reset_query_answers (refused w) p
    ∙ ap (λ t. done (record (refused w) { client = record ((refused w).client) { transmits = t } }))
        (append_assoc w.client.transmits (bad_version w.client ∷ []) _)
  where
    turn : World → Outcome World
    turn v = pass_simple_handler (handle_pdu (enforce v (reset_query p))) (reset_query p)
