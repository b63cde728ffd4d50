-- ===== src/Dump/Output/Written.antt =====
-- When main of cmd/rtrdump/rtrdump.go writes its file, and what.
use stayrtr.Prelude.{
  ◌<◌, ◌≡◌, refl, ap, ◌∙◌, sym, arith, Bool, true, false, Option, some, List, [], ◌∷◌, ◌++◌, Text,
  length, map, All, lt→ltb, if◌then◌else◌, Bool-cases, inl, inr,
}
use stayrtr.Net.{IpNet}
use stayrtr.Pdu.{Pdu, PduResetQuery, reset_query, cache_response, set_version, protocol_version_1}
use stayrtr.Server.{done}
use stayrtr.Vrp.{Vrp}
use stayrtr.Prefixfile.{VrpList}
use stayrtr.Client.Answers.{
  data_answer, no_data_answer, vrp_pdus, end_pdu, sent, reset_query_answers,
}
use stayrtr.Client.Handlers.{World, on_client, pass_simple_handler}
use stayrtr.Session.{ClientSession, new_client_session}
use stayrtr.Session.Stream.{write_all}
use stayrtr.Session.Listener.{IsKept, listener, until_stop}
use stayrtr.Session.Ending.{stops, start_result-write_all, start_result-start_rw, state_of}
use stayrtr.Session.Connect.{Opening}
use stayrtr.Session.Network.{
  Network, Opened, opened, not_opened, StartError, Started, connect, start_opened,
}
use stayrtr.Monitor.Router.{HasFamily}
use stayrtr.Dump.{DumpClient, dump_pdu, dump_connected, run_dump, new_dump_client}
use stayrtr.Dump.Whole.{dumped, with_data, stays-connected, run_dump-data_answer}
use stayrtr.Dump.Connect.{DumpFlags, client_of_flags, dump_start}
use stayrtr.Dump.Output.{fatal, write_output, finish, dump_session, dump_main}
use stayrtr.Dump.Output.Entries.{
  is_ended, written, entries, counted, write_output-written, stops-is_ended, read_data-entries,
}

module _ {H : Type 0} (step : H → Pdu → H × Bool) (greet : H → ClientSession → ClientSession)
    (last : Pdu) (ends : (h : H) → (step h last).1 ≡ true) where
  -- A list of PDUs whose last one ends the session ends it.
  stops-last : (pdus : List Pdu) (h : H) → stops step greet h (pdus ++ (last ∷ [])) ≡ true
  stops-last [] h = ap (λ b. if b then true else false) (ends h)
  stops-last (p ∷ pdus) h = ground (arith, stops-last pdus (step h p).0)

first_inj : {A B : Type 0} (x y : A × B) → some x ≡ some y → x.0 ≡ y.0
first_inj x y e = cc

done_inj : {A : Type 0} {a b : A} → done a ≡ done b → a ≡ b
done_inj e = cc

-- What the server's answer to a Reset Query is.
answer_of :
    (w w' : World) (p : PduResetQuery)
    → pass_simple_handler w (reset_query p) ≡ done w'
    → w.client.transmits ≡ []
    → 0 < length w.server.vrp_list_serial
    → w'.client.transmits
      ≡ data_answer w.client w.server.sess_id w.server.vrp_current_serial w.server.vrp_current
answer_of w w' p answered fresh some_data =
    let answer =
      data_answer w.client w.server.sess_id w.server.vrp_current_serial w.server.vrp_current in
    let same = done_inj (
      sym answered
      ∙ reset_query_answers w p
      ∙ ap
          (λ b. done (
            on_client w (λ c. sent c (
              if b
              then data_answer c w.server.sess_id w.server.vrp_current_serial w.server.vrp_current
              else no_data_answer c))))
          (lt→ltb 0 _ some_data)) in
    ap (λ x. x.client.transmits) same ∙ ap (λ t. t ++ answer) fresh

answer-stops :
    (ipnet_string : IpNet → Text) (w : World) (c : DumpClient)
    → stops
        (dump_pdu ipnet_string)
        dump_connected
        c
        (data_answer w.client w.server.sess_id w.server.vrp_current_serial w.server.vrp_current)
      ≡ true
unfolding dump_pdu set_version
answer-stops ipnet_string w c =
    stops-last (dump_pdu ipnet_string) dump_connected
      (end_pdu w.client w.server.sess_id w.server.vrp_current_serial) (λ h. refl)
      (set_version (cache_response (record { version = 0; session_id = w.server.sess_id }))
          w.client.version
        ∷ vrp_pdus w.client.version w.server.vrp_current)
      c

-- The list of a file with these VRPs, counted.
abbrev pub listed : (IpNet → Text) → List Vrp → VrpList
listed ipnet_string vrps =
    (with_data ipnet_string false 0 0 (map (dumped ipnet_string) vrps)).data_of

module _ (ipnet_string : IpNet → Text) {Signer Conn SshClient SshSession : Type 0}
    (network : Network Signer Conn SshClient SshSession) (getenv : Text → Text)
    (read_file : Text → Option Text) (parse_private_key : Text → Option Signer)
    (create : Text → Bool) (flags : DumpFlags) (out_file : Text) where
  dump_main-stops :
      (opening : Opening Signer) (pdus : List Pdu)
      → dump_start getenv read_file parse_private_key flags ≡ some opening
      → connect network opening ≡ opened (write_all pdus)
      → All IsKept pdus
      → dump_main ipnet_string network getenv read_file parse_private_key create flags out_file
        ≡ some (
            if stops (dump_pdu ipnet_string) dump_connected (client_of_flags flags) pdus
            then write_output create out_file
                (until_stop (dump_pdu ipnet_string) (client_of_flags flags) pdus).data_of
            else fatal)
  unfolding dump_main dump_session start_opened finish stayrtr.Session.Network.decode_error
  dump_main-stops opening pdus e1 e2 k =
      let c0 = client_of_flags flags in
      let cs = new_client_session protocol_version_1 true in
      let (end, q) =
        start_result-write_all (dump_pdu ipnet_string) dump_connected c0 cs pdus
          (stays-connected cs c0) k in
      elim (Bool-cases (stops (dump_pdu ipnet_string) dump_connected c0 pdus)) [
        | inl s ↦ rw (dump_main, e1, dump_session, e2, start_opened, q, s) refl
        | inr s ↦ rw (dump_main, e1, dump_session, e2, start_opened, q, s) refl
      ]

  -- Where the flags name a connection that is opened, and PDUs that the wire keeps come over it until
  -- it is closed: if one of them is neither a prefix nor a Cache Response, so an End of Data, a Cache
  -- Reset or another, main writes an entry for each prefix before the first such one, in their order and
  -- counted, to the file that the flag names, or to the standard output where it names none; it ends
  -- with log.Fatal if the file cannot be created. If there is none, main ends with log.Fatal and writes
  -- nothing. The wire keeps no Error Report with a text.
  pub dump_main-write_all :
      (opening : Opening Signer) (pdus : List Pdu)
      → dump_start getenv read_file parse_private_key flags ≡ some opening
      → connect network opening ≡ opened (write_all pdus)
      → All IsKept pdus
      → dump_main ipnet_string network getenv read_file parse_private_key create flags out_file
        ≡ some (
            if is_ended pdus
            then written create out_file (counted (entries ipnet_string pdus))
            else fatal)
  unfolding client_of_flags new_dump_client
  dump_main-write_all opening pdus e1 e2 k =
      let c0 = client_of_flags flags in
      let d = (until_stop (dump_pdu ipnet_string) c0 pdus).data_of in
      dump_main-stops opening pdus e1 e2 k
      ∙ ap (λ b. some (if b then write_output create out_file d else fatal))
          (stops-is_ended ipnet_string pdus c0)
      ∙ ap (λ x. some (if is_ended pdus then x else fatal)) (write_output-written create out_file d)
      ∙ ap (λ x. some (if is_ended pdus then written create out_file x else fatal))
          (read_data-entries ipnet_string c0.init_serial c0.serial c0.session_id [] pdus)

  -- The data of the client after a whole answer is the list of its VRPs.
  until_stop-data_answer :
      (w : World)
      → All HasFamily w.server.vrp_current
      → All IsKept
          (data_answer w.client w.server.sess_id w.server.vrp_current_serial w.server.vrp_current)
      → (until_stop (dump_pdu ipnet_string) (client_of_flags flags) (
          data_answer w.client w.server.sess_id w.server.vrp_current_serial
            w.server.vrp_current)).data_of
        ≡ listed ipnet_string w.server.vrp_current
  unfolding run_dump client_of_flags new_dump_client
  until_stop-data_answer w families k =
      let answer =
        data_answer w.client w.server.sess_id w.server.vrp_current_serial w.server.vrp_current in
      let c0 = client_of_flags flags in
      let cs = new_client_session protocol_version_1 true in
      let handler = listener (dump_pdu ipnet_string) dump_connected in
      let (end, q) =
        start_result-write_all (dump_pdu ipnet_string) dump_connected c0 cs answer
          (stays-connected cs c0) k in
      let (end', q', off) =
        run_dump-data_answer ipnet_string c0.init_serial c0.serial c0.session_id w.client
          w.server.sess_id w.server.vrp_current_serial w.server.vrp_current families k in
      ap (λ c. c.data_of)
        (first_inj _ _ (
          sym (ap (state_of handler) q)
          ∙ start_result-start_rw handler c0 cs (write_all answer)
          ∙ q'))

  -- Where the flags name a connection that is opened, and over it comes, until it is closed, what a
  -- cache that keeps a serial puts into the queue for the Reset Query of a client to which nothing was
  -- sent before: main writes exactly the VRPs of the cache, in their order and counted, to the file that
  -- the flag names, or to the standard output where it names none; it ends with log.Fatal if the file
  -- cannot be created. This is of an answer whose PDUs the wire keeps and of VRPs whose addresses
  -- have a family.
  pub dump_main-reset_query :
      (opening : Opening Signer) (w w' : World) (p : PduResetQuery)
      → dump_start getenv read_file parse_private_key flags ≡ some opening
      → pass_simple_handler w (reset_query p) ≡ done w'
      → connect network opening ≡ opened (write_all w'.client.transmits)
      → w.client.transmits ≡ []
      → 0 < length w.server.vrp_list_serial
      → All HasFamily w.server.vrp_current
      → All IsKept
          (data_answer w.client w.server.sess_id w.server.vrp_current_serial w.server.vrp_current)
      → dump_main ipnet_string network getenv read_file parse_private_key create flags out_file
        ≡ some (written create out_file (listed ipnet_string w.server.vrp_current))
  dump_main-reset_query opening w w' p e1 answered e2 fresh some_data families k =
      let answer =
        data_answer w.client w.server.sess_id w.server.vrp_current_serial w.server.vrp_current in
      let queue : w'.client.transmits ≡ answer = answer_of w w' p answered fresh some_data in
      let ends : stops (dump_pdu ipnet_string) dump_connected (client_of_flags flags) answer
          ≡ true =
        answer-stops ipnet_string w (client_of_flags flags) in
      dump_main-stops opening answer e1 (e2 ∙ ap (λ t. opened (write_all t)) queue) k
      ∙ ap
          (λ b. some (
            if b
            then write_output create out_file
                (until_stop (dump_pdu ipnet_string) (client_of_flags flags) answer).data_of
            else fatal))
          ends
      ∙ ap (λ d. some (write_output create out_file d)) (until_stop-data_answer w families k)
      ∙ ap some (write_output-written create out_file (listed ipnet_string w.server.vrp_current))
