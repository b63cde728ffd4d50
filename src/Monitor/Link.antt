-- ===== src/Monitor/Link.antt =====
-- A session of the monitor with a server, from the bytes that the server sends (cmd/rtrmon/rtrmon.go,
-- NewClient, ClientConnected and the session that Start runs).
use stayrtr.Prelude.{
  ℕ, ◌≡◌, refl, arith, ap, ◌∙◌, sym, Bool, true, false, ◌||◌, Option, some, List, [], ◌∷◌, ◌++◌,
  Text, All, if◌then◌else◌, Bool-cases, Option-cases, inl, inr,
}
use stayrtr.Net.{IpNet, to4, to16}
use stayrtr.Pdu.{Pdu, set_version, protocol_version_1}
use stayrtr.Vrp.{Vrp}
use stayrtr.Vrp.Last.{last_with}
use stayrtr.Diff.Replay.{View, replay, holds, replay-last_with}
use stayrtr.Diff.Merge.{IsAnnounced}
use stayrtr.Client.{Client, vrp_pdu}
use stayrtr.Client.Answers.{vrp_pdus, data_answer, end_pdu}
use stayrtr.Session.{
  ClientSession, new_client_session, send_reset_query, session_send_pdu, start_rw,
}
use stayrtr.Session.Stream.{write_all}
use stayrtr.Session.Listener.{IsKept, listener, until_stop, start_rw-until_stop}
use stayrtr.Monitor.{MonitorClient, monitor_pdu, monitor_all}
use stayrtr.Monitor.Router.{keys_of, HasFamily, monitor_takes_answer, monitor_all-append}

-- NewClient
unfoldable pub new_monitor_client : MonitorClient
new_monitor_client = record {
  vrps_rtr = [];
  vrps = [];
  serial = 0;
  session_id = 0;
  break_rtr = false;
  rtr_refresh = 0;
  rtr_retry = 0;
  rtr_expire = 0;
  last_update = 0;
}

-- what ClientConnected does with the session; of its client it changes nothing
unfoldable pub monitor_connected : MonitorClient → ClientSession → ClientSession
monitor_connected c cs = send_reset_query cs

module _ (ipnet_string : IpNet → Text) where
  announced-or :
      (d : List Vrp) (s : View) (k : Text)
      → IsAnnounced ipnet_string k d
      → replay ipnet_string d s k ≡ (holds ipnet_string d k || s k)
  announced-or d s k h = elim (Option-cases (last_with ipnet_string k d)) [
    | inl e ↦ ground (arith, e, replay-last_with ipnet_string d s k)
    | inr (v, e) ↦ ground (arith, e, h v e, replay-last_with ipnet_string d s k)
  ]

  -- One session that Start runs, at the time `now`, for all the bytes that the server sends. Every
  -- session is new, and the client is the one of the session before.
  unfoldable pub run_session : MonitorClient → ℕ → List ℕ → Option (MonitorClient × ClientSession)
  run_session c now bytes =
      start_rw (listener (λ h pdu. monitor_pdu ipnet_string h now pdu) monitor_connected)
        (c, new_client_session protocol_version_1 true) bytes

  module _ (now : ℕ) where
    abbrev step : MonitorClient → Pdu → MonitorClient × Bool
    step h pdu = monitor_pdu ipnet_string h now pdu

    goes-on :
        (version : ℕ) (v : Vrp) (d : List Vrp) (c : MonitorClient) (rest : List Pdu)
        → until_stop step c (vrp_pdus version (v ∷ d) ++ rest)
          ≡ until_stop step
              (monitor_all ipnet_string c now (vrp_pdus version (v ∷ [])))
              (vrp_pdus version d ++ rest)
    unfolding monitor_all monitor_pdu vrp_pdu set_version
    goes-on version v d c rest = elim (Option-cases (to4 v.prefix.ip)) [
      | inr (x, e) ↦ rw (vrp_pdus, vrp_pdu, e) refl
      | inl e ↦ elim (Option-cases (to16 v.prefix.ip)) [
        | inr (x, e2) ↦ rw (vrp_pdus, vrp_pdu, e, e2) refl
        | inl e2 ↦ rw (vrp_pdus, vrp_pdu, e, e2) refl
      ]
    ]

    one-more :
        (version : ℕ) (v : Vrp) (d : List Vrp) (c : MonitorClient)
        → monitor_all ipnet_string
            (monitor_all ipnet_string c now (vrp_pdus version (v ∷ [])))
            now
            (vrp_pdus version d)
          ≡ monitor_all ipnet_string c now (vrp_pdus version (v ∷ d))
    unfolding monitor_all
    one-more version v d c = elim (Option-cases (vrp_pdu v)) [
      | inr (x, e) ↦ rw (vrp_pdus, e) refl
      | inl e ↦ rw (vrp_pdus, e) refl
    ]

    takes-vrps :
        (version : ℕ) (d : List Vrp) (c : MonitorClient) (rest : List Pdu)
        → until_stop step c (vrp_pdus version d ++ rest)
          ≡ until_stop step (monitor_all ipnet_string c now (vrp_pdus version d)) rest
    unfolding monitor_all
    takes-vrps version [] c rest = refl
    takes-vrps version (v ∷ d) c rest =
        goes-on version v d c rest
        ∙ takes-vrps version d (monitor_all ipnet_string c now (vrp_pdus version (v ∷ []))) rest
        ∙ ap (λ x. until_stop step x rest) (one-more version v d c)

    last-one : (c : MonitorClient) (p : Pdu) → until_stop step c (p ∷ []) ≡ (step c p).0
    last-one c p = elim (Bool-cases (step c p).1) [
      | inl e ↦ ap (λ b. if b then (step c p).0 else (step c p).0) e
      | inr e ↦ ap (λ b. if b then (step c p).0 else (step c p).0) e
    ]

    takes-answer :
        (c : MonitorClient) (router : Client) (session_id serial : ℕ) (d : List Vrp)
        → until_stop step c (data_answer router session_id serial d)
          ≡ monitor_all ipnet_string c now (data_answer router session_id serial d)
    unfolding monitor_all monitor_pdu set_version
    takes-answer c router session_id serial d =
        let noted = record c { session_id = session_id } in
        takes-vrps router.version d noted _
        ∙ last-one (monitor_all ipnet_string noted now (vrp_pdus router.version d))
            (end_pdu router session_id serial)
        ∙ sym
            (monitor_all-append ipnet_string now router.version (vrp_pdus router.version d) _ noted)

  -- From the bytes of a whole answer with data, a session of the monitor notes the answer's serial and
  -- leaves, for each key, the key exactly if the monitor had it before the session or a VRP of the
  -- answer announces it: what was held of an earlier session is not forgotten, and stays where the
  -- answer does not name it. This is of an answer that announces its VRPs, whose PDUs the wire keeps
  -- and whose addresses have a family.
  pub run_session-data_answer :
      (c : MonitorClient) (now : ℕ) (router : Client) (session_id serial : ℕ) (d : List Vrp)
      → All HasFamily d
      → ((k : Text) → IsAnnounced ipnet_string k d)
      → All IsKept (data_answer router session_id serial d)
      → (c' : MonitorClient) × (end : ClientSession) × (run_session c now
            (write_all (data_answer router session_id serial d))
          ≡ some (c', end))
        × (c'.serial ≡ serial)
        × ((k : Text) → keys_of c'.vrps k ≡ (holds ipnet_string d k || keys_of c.vrps_rtr k))
  unfolding run_session monitor_connected send_reset_query session_send_pdu
  run_session-data_answer c now router session_id serial d families announces kept =
      let answer = data_answer router session_id serial d in
      let (end, q, off) =
        start_rw-until_stop (step now) monitor_connected c (new_client_session 1 true) answer refl
          kept in
      let (noted, keys) =
        monitor_takes_answer ipnet_string now session_id serial d router c families in
      (
        monitor_all ipnet_string c now answer,
        end,
        q ∙ ap (λ x. some (x, end)) (takes-answer now c router session_id serial d),
        noted,
        λ k. keys k ∙ announced-or d (keys_of c.vrps_rtr) k (announces k),
      )
