-- ===== src/Dump/Whole.antt =====
-- What rtrdump writes for the answer of a server (cmd/rtrdump/rtrdump.go, HandlePDU).
use stayrtr.Prelude.{
  ℕ, suc, ◌≡◌, refl, arith, ap, ◌∙◌, sym, Bool, true, false, some, List, [], ◌∷◌, ◌++◌, Text,
  length, map, All, Option-cases, inl, inr, append_assoc, append-nil, length-append, if◌then◌else◌,
  Bool-cases, ◌<◌, lt→ltb,
}
use stayrtr.Prelude.Int.{pos}
use stayrtr.Net.{IpNet, to4, to16}
use stayrtr.Pdu.{Pdu, PduResetQuery, reset_query, set_version}
use stayrtr.Prefixfile.{VrpJson, uint32}
use stayrtr.Vrp.{Vrp}
use stayrtr.Server.{done}
use stayrtr.Client.{Client, vrp_pdu}
use stayrtr.Client.Answers.{vrp_pdus, data_answer, no_data_answer, sent, reset_query_answers}
use stayrtr.Client.Handlers.{World, on_client, pass_simple_handler}
use stayrtr.Session.{
  ClientSession, send_reset_query, send_serial_query, session_send_pdu, new_client_session,
}
use stayrtr.Session.Stream.{write_all}
use stayrtr.Session.Listener.{IsKept, until_stop, start_rw-until_stop}
use stayrtr.Dump.{
  DumpClient, new_dump_client, append_vrp, dump_prefix, dump_pdu, dump_connected, run_dump,
}
use stayrtr.Monitor.Router.{HasFamily}

pub stays-connected :
    (cs : ClientSession) (c : DumpClient)
    → (dump_connected c (record cs { connected = true })).connected ≡ true
unfolding dump_connected send_serial_query send_reset_query session_send_pdu
stays-connected cs c =
    let on : ClientSession = record cs { connected = true } in
    elim (Bool-cases c.init_serial) [
      | inl e ↦
          ap
            (λ b.
              (if b
                then send_serial_query on c.session_id c.serial
                else send_reset_query on).connected)
            e
      | inr e ↦
          ap
            (λ b.
              (if b
                then send_serial_query on c.session_id c.serial
                else send_reset_query on).connected)
            e
    ]

module _ (ipnet_string : IpNet → Text) where
  -- The entry of the file for a VRP, whatever its flags.
  abbrev pub dumped : Vrp → VrpJson
  dumped v = record {
    prefix = ipnet_string v.prefix;
    length = v.max_len;
    asn = uint32 v.asn;
    ta = [];
    expires = pos 0;
  }

  -- a client with the entries `vrps` and as many counted
  abbrev pub with_data : Bool → ℕ → ℕ → List VrpJson → DumpClient
  with_data init_serial serial session_id vrps = record {
    data_of = record {
      metadata = record { counts = length vrps; buildtime = [] };
      data_of = some vrps;
    };
    init_serial = init_serial;
    serial = serial;
    session_id = session_id;
  }

  module _ (init_serial : Bool) (serial session_id : ℕ) where
    abbrev holding : List VrpJson → DumpClient
    holding = with_data init_serial serial session_id

    vrp-step :
        (version : ℕ) (v : Vrp) (d : List Vrp) (c : DumpClient) (rest : List Pdu)
        → HasFamily v
        → until_stop (dump_pdu ipnet_string) c (vrp_pdus version (v ∷ d) ++ rest)
          ≡ until_stop
              (dump_pdu ipnet_string)
              (dump_prefix ipnet_string c v.prefix v.max_len v.asn)
              (vrp_pdus version d ++ rest)
    unfolding dump_pdu vrp_pdu set_version
    vrp-step version v d c rest h = elim (Option-cases (to4 v.prefix.ip)) [
      | inr (x, e) ↦ rw (vrp_pdus, vrp_pdu, e) refl
      | inl e ↦ elim (Option-cases (to16 v.prefix.ip)) [
        | inr (x, e2) ↦ rw (vrp_pdus, vrp_pdu, e, e2) refl
        | inl e2 ↦ absurd (h e2)
      ]
    ]

    counts-one :
        (v : Vrp) (vrps : List VrpJson)
        → dump_prefix ipnet_string (holding vrps) v.prefix v.max_len v.asn
          ≡ holding (vrps ++ (dumped v ∷ []))
    unfolding dump_prefix append_vrp
    counts-one v vrps =
        let more : suc (length vrps) ≡ length (vrps ++ (dumped v ∷ [])) =
          omega (arith, length-append vrps (dumped v ∷ [])) in
        ap
          (λ n. record (holding (vrps ++ (dumped v ∷ []))) {
            data_of = record {
              metadata = record { counts = n; buildtime = [] };
              data_of = some (vrps ++ (dumped v ∷ []));
            };
          })
          more

    takes-vrps :
        (version : ℕ) (d : List Vrp) (vrps : List VrpJson) (rest : List Pdu)
        → All HasFamily d
        → until_stop (dump_pdu ipnet_string) (holding vrps) (vrp_pdus version d ++ rest)
          ≡ until_stop (dump_pdu ipnet_string) (holding (vrps ++ map dumped d)) rest
    takes-vrps version [] vrps rest h =
        ap (λ x. until_stop (dump_pdu ipnet_string) (holding x) rest) (sym (append-nil vrps))
    takes-vrps version (v ∷ d) vrps rest (h, hs) =
        vrp-step version v d (holding vrps) rest h
        ∙ ap (λ c. until_stop (dump_pdu ipnet_string) c (vrp_pdus version d ++ rest))
            (counts-one v vrps)
        ∙ takes-vrps version d (vrps ++ (dumped v ∷ [])) rest hs
        ∙ ap (λ x. until_stop (dump_pdu ipnet_string) (holding x) rest)
            (append_assoc vrps (dumped v ∷ []) (map dumped d))

    takes-answer :
        (router : Client) (session serial' : ℕ) (d : List Vrp)
        → All HasFamily d
        → until_stop (dump_pdu ipnet_string) (holding []) (data_answer router session serial' d)
          ≡ holding (map dumped d)
    unfolding dump_pdu set_version
    takes-answer router session serial' d h = takes-vrps router.version d [] _ h

  -- For the bytes of a whole answer with data, rtrdump writes one entry for each VRP of the answer,
  -- in the order of the answer and counted, whatever the VRP's flags are: a VRP that the answer
  -- withdraws is written like one that it announces. Its session is disconnected at the end. This
  -- is of an answer whose PDUs the wire keeps and of VRPs whose addresses have a family.
  pub run_dump-data_answer :
      (init_serial : Bool) (serial session_id : ℕ) (router : Client) (session current : ℕ)
      (d : List Vrp)
      → All HasFamily d
      → All IsKept (data_answer router session current d)
      → (end : ClientSession) × (run_dump ipnet_string init_serial serial session_id
            (write_all (data_answer router session current d))
          ≡ some (with_data init_serial serial session_id (map dumped d), end))
        × (end.connected ≡ false)
  unfolding run_dump new_dump_client
  run_dump-data_answer init_serial serial session_id router session current d h k =
      let answer = data_answer router session current d in
      let c0 = new_dump_client init_serial serial session_id in
      let cs = new_client_session 1 true in
      let (end, q, off) =
        start_rw-until_stop (dump_pdu ipnet_string) dump_connected c0 cs answer
          (stays-connected cs c0) k in
      (
        end,
        q
            ∙ ap (λ c. some (c, end))
                (takes-answer init_serial serial session_id router session current d h),
        off,
      )

  -- A cache that keeps a serial answers the Reset Query of a client to which nothing was sent
  -- before with bytes from which rtrdump, which asks for no serial, writes exactly the VRPs of the
  -- cache, in their order and counted. This is of an answer whose PDUs the wire keeps and of VRPs
  -- whose addresses have a family.
  pub run_dump-reset_query :
      (w : World) (p : PduResetQuery)
      → w.client.transmits ≡ []
      → 0 < length w.server.vrp_list_serial
      → All HasFamily w.server.vrp_current
      → All IsKept
          (data_answer w.client w.server.sess_id w.server.vrp_current_serial w.server.vrp_current)
      → (w' : World) × (end : ClientSession) × (pass_simple_handler w (reset_query p) ≡ done w')
        × (run_dump ipnet_string false 0 0 (write_all w'.client.transmits)
            ≡ some (with_data false 0 0 (map dumped w.server.vrp_current), end))
  run_dump-reset_query w p fresh some_data h k =
      let answer =
        data_answer w.client w.server.sess_id w.server.vrp_current_serial w.server.vrp_current in
      let w' = on_client w (λ c. sent c answer) in
      let (end, q, off) =
        run_dump-data_answer false 0 0 w.client w.server.sess_id w.server.vrp_current_serial
          w.server.vrp_current h k in
      (
        w',
        end,
        reset_query_answers w p
            ∙ ap
                (λ b. done (
                  on_client w (λ c. sent c (
                    if b
                    then data_answer c w.server.sess_id w.server.vrp_current_serial
                        w.server.vrp_current
                    else no_data_answer c))))
                (lt→ltb 0 _ some_data),
        ap (λ t. run_dump ipnet_string false 0 0 (write_all (t ++ answer))) fresh ∙ q,
      )
