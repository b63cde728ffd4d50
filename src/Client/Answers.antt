-- ===== src/Client/Answers.antt =====
-- What a router gets for a query (lib/server.go: RequestCache, RequestNewVersion and SendVRPs).
use stayrtr.Prelude.{
  ℕ, ◌<◌, ◌≡◌, refl, arith, true, none, some, List, [], ◌∷◌, ◌++◌, length, append_assoc, append-nil,
  ltb, lt→ltb, if◌then◌else◌, codes, Bool-cases, ◌⊎◌, ◌≤◌, ap, ◌∙◌, Option-cases, inl, inr,
}
use stayrtr.Server.Linked.{IsLinked}
use stayrtr.Server.Serials.{steps, length-serials}
use stayrtr.Server.Query.{query_answers}
use stayrtr.Pdu.{
  PduResetQuery, PduSerialQuery, Pdu, set_version, cache_response, end_of_data, cache_reset,
  serial_query, reset_query, error_no_data,
}
use stayrtr.Vrp.{Vrp}
use stayrtr.Server.{done, get_current_serial, get_current_vrps, get_vrps_serial_diff}
use stayrtr.Client.{
  Client, vrp_pdu, send_pdu, send_raw_pdu, send_vrp, send_each, send_vrps, send_cache_reset,
  send_no_data_error, error_pdu,
}
use stayrtr.Client.Handlers.{
  World, on_client, request_cache, request_new_version, pass_simple_handler,
}

-- The PDUs of a list of VRPs, in the order of the list.
abbrev pub vrp_pdus : ℕ → List Vrp → List Pdu
vrp_pdus version [] = []
vrp_pdus version (v ∷ vrps) =
    let rest = vrp_pdus version vrps in
    elim (vrp_pdu v) [ none ↦ rest | some pdu ↦ set_version pdu version ∷ rest ]

-- The End of Data with a serial.
abbrev pub end_pdu : Client → ℕ → ℕ → Pdu
end_pdu c session_id serial =
    set_version
      (end_of_data (record {
        version = 0;
        session_id = session_id;
        serial_number = serial;
        refresh_interval = c.refresh_interval;
        retry_interval = c.retry_interval;
        expire_interval = c.expire_interval;
      }))
      c.version

-- A whole answer with data: a Cache Response, the VRPs, and an End of Data with the serial.
abbrev pub data_answer : Client → ℕ → ℕ → List Vrp → List Pdu
data_answer c session_id serial vrps =
    set_version (cache_response (record { version = 0; session_id = session_id })) c.version
    ∷ (vrp_pdus c.version vrps ++ (end_pdu c session_id serial ∷ []))

abbrev pub sent : Client → List Pdu → Client
sent c pdus = record c { transmits = c.transmits ++ pdus }

send_each_lem : (c : Client) (vrps : List Vrp) → send_each c vrps ≡ sent c (vrp_pdus c.version vrps)
unfolding send_each send_vrp send_pdu send_raw_pdu
send_each_lem c [] = rw (append-nil c.transmits) refl
send_each_lem c (v ∷ vrps) = elim (Option-cases (vrp_pdu v)) [
  | inl e ↦ rw (e, send_vrp, vrp_pdus) (send_each_lem c vrps)
  | inr (pdu, e) ↦
      rw (e, send_vrp, vrp_pdus)
        (send_each_lem (sent c (set_version pdu c.version ∷ [])) vrps
          ∙ ap (λ t. record c { transmits = t })
              (append_assoc c.transmits (set_version pdu c.version ∷ []) (vrp_pdus c.version vrps)))
]

-- Sending a list of VRPs puts exactly one whole answer behind what was sent before, and changes
-- nothing else.
pub send_vrps_lem :
    (c : Client) (session_id serial : ℕ) (vrps : List Vrp)
    → send_vrps c session_id serial vrps ≡ sent c (data_answer c session_id serial vrps)
unfolding send_vrps send_pdu send_raw_pdu
send_vrps_lem c session_id serial vrps =
    let first =
      set_version (cache_response (record { version = 0; session_id = session_id })) c.version in
    rw (send_each_lem (sent c (first ∷ [])) vrps) (
      ap (λ t. record c { transmits = t })
        (append_assoc (c.transmits ++ (first ∷ [])) (vrp_pdus c.version vrps) _
          ∙ append_assoc c.transmits (first ∷ []) (vrp_pdus c.version vrps ++ _)))

abbrev pub no_data_answer : Client → List Pdu
no_data_answer c = set_version (error_pdu error_no_data (codes "No data available")) c.version ∷ []

abbrev pub reset_answer : Client → List Pdu
reset_answer c = set_version (cache_reset (record { version = 0 })) c.version ∷ []

-- A Reset Query is answered with all current VRPs and the current serial once the server has data,
-- and with the error No Data Available before.
pub reset_query_answers :
    (w : World) (p : PduResetQuery)
    → pass_simple_handler w (reset_query p)
      ≡ done (
          on_client w (λ c. sent c (
            if ltb 0 (length w.server.vrp_list_serial)
            then data_answer c w.server.sess_id w.server.vrp_current_serial w.server.vrp_current
            else no_data_answer c)))
unfolding pass_simple_handler request_cache get_current_serial get_current_vrps send_no_data_error
    send_pdu send_raw_pdu
reset_query_answers w p = elim (Bool-cases (ltb 0 (length w.server.vrp_list_serial))) [
  | inl e ↦
      rw
        (
          e,
          send_vrps_lem w.client w.server.sess_id w.server.vrp_current_serial w.server.vrp_current,
        )
        refl
  | inr e ↦ rw e refl
]

-- A Serial Query with a 32-bit serial to a well linked cache that keeps a serial ends without an index
-- out of range, in one of two answers: a diff that the cache has for the serial, with the current
-- serial and under the session that the query names; or, for a serial that is not kept, a Cache
-- Reset.
pub serial_query_answers :
    (w : World) (p : PduSerialQuery) (linked : IsLinked w.server)
    → p.serial_number < 4294967296
    → 0 < linked.count
    → ((d : List Vrp) × (get_vrps_serial_diff w.server p.serial_number ≡ done (d, true))
        × (pass_simple_handler w (serial_query p)
            ≡ done (
                on_client w
                  (λ c. sent c (data_answer c p.session_id w.server.vrp_current_serial d)))))
      ⊎ ((linked.count ≤ steps linked.start p.serial_number)
          × (pass_simple_handler w (serial_query p)
              ≡ done (on_client w (λ c. sent c (reset_answer c)))))
unfolding pass_simple_handler request_new_version get_current_serial send_cache_reset send_pdu
    send_raw_pdu
serial_query_answers w p linked fits some_data =
    elim (Bool-cases (ltb (steps linked.start p.serial_number) linked.count)) [
      | inl e ↦
          let (d, found) = (query_answers w.server p.serial_number linked fits).0 (ground arith) in
          inl (
            d,
            found,
            rw (request_new_version, valid, found)
                (ap (λ c. done (record w { client = c }))
                  (send_vrps_lem w.client p.session_id w.server.vrp_current_serial d)),
          )
      | inr e ↦
          let far : linked.count ≤ steps linked.start p.serial_number = ground arith in
          let unknown = (query_answers w.server p.serial_number linked fits).1 far (λ q. omega (
            arith, q, some_data, far, linked.current, linked.bounded, linked.keep_bounded,
            linked.start_fits,
          )) in
          inr (far, rw (request_new_version, valid, unknown) refl)
    ]
  where
    valid : ltb 0 (length w.server.vrp_list_serial) ≡ true
    valid =
        lt→ltb 0 _ (
          omega (arith, some_data, ap length linked.list, length-serials linked.count linked.start))
