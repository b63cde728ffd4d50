-- ===== src/Monitor/Refresh/Lost.antt =====
-- A monitor whose serial the server does not keep any more (cmd/rtrmon/rtrmon.go, continuousRTR and
-- HandlePDU).
use stayrtr.Prelude.{
  ℕ, ◌+◌, ◌≤◌, ◌<◌, ◌≡◌, refl, arith, ◌∙◌, sym, subst, List, [], ◌∷◌, length, Text, u32, inl, inr,
}
use stayrtr.Net.{IpNet}
use stayrtr.Vrp.{Vrp}
use stayrtr.Diff.Compute.{diff_of}
use stayrtr.Pdu.{PduSerialQuery, serial_query, cache_reset, set_version}
use stayrtr.Server.{Server, add_vrps}
use stayrtr.Server.Serials.{steps}
use stayrtr.Server.Linked.{IsLinked}
use stayrtr.Server.Query.{query_answers}
use stayrtr.Server.Update.{add_vrps_diff-IsLinked, length-vrp_list_diff, vrp_current_serial-add}
use stayrtr.Client.{Client}
use stayrtr.Client.Handlers.{World}
use stayrtr.Client.Answers.{serial_query_answers, reset_answer}
use stayrtr.Monitor.{MonitorClient, monitor_all, monitor_pdu}
use stayrtr.Session.{new_client_session, session_send_pdu, send_serial_query}
use stayrtr.Monitor.Refresh.{
  answers_to, answers_to_all, refresh_queries, continuous_rtr, refresh_loop, refresh_turn,
  refresh_turns,
}

-- The server has data, and is `behind` updates after the serial, which is too far for its diffs.
pub record IsLost (s : Server) (serial behind : ℕ) : Type 0 where
  pub linked : IsLinked s
  pub some_data : 0 < length s.vrp_list_diff
  pub serial_fits : serial < 4294967296
  pub distance : s.vrp_current_serial ≡ u32 (serial + behind)
  pub gone : length s.vrp_list_diff ≤ behind

module _ (ipnet_string : IpNet → Text) where
  add_vrps-IsLost :
      (s : Server) (serial behind : ℕ) (new : List Vrp)
      → IsLost s serial behind
      → IsLost (add_vrps ipnet_string s new) serial (behind + 1)
  unfolding add_vrps
  add_vrps-IsLost s serial behind new h =
      let diff = diff_of ipnet_string new s.vrp_current in
      record {
        linked = add_vrps_diff-IsLinked ipnet_string s diff h.linked;
        some_data = ground (
          arith,
          length-vrp_list_diff ipnet_string s diff h.linked,
          h.some_data,
          h.linked.diffs,
          h.linked.bounded,
          h.linked.keep_positive,
        );
        serial_fits = h.serial_fits;
        distance =
            vrp_current_serial-add ipnet_string s diff h.linked
            ∙ ground (arith, h.distance, h.some_data, h.linked.diffs);
        gone = ground (arith, length-vrp_list_diff ipnet_string s diff h.linked, h.gone);
      }

-- a serial that is lost is answered with a Cache Reset
answers_to-IsLost :
    (s : Server) (router : Client) (session_id serial behind : ℕ)
    → IsLost s serial behind
    → behind < 4294967296
    → answers_to s router
        (serial_query (record { version = 1; session_id = session_id; serial_number = serial }))
      ≡ reset_answer router
unfolding answers_to
answers_to-IsLost s router session_id serial behind h near =
    let query : PduSerialQuery = record {
      version = 1;
      session_id = session_id;
      serial_number = serial;
    } in
    let w : World = record { server = s; client = record router { transmits = [] }; id = 0 } in
    let far : h.linked.count ≤ steps h.linked.start serial = omega (
      arith, h.distance, h.gone, h.linked.diffs, h.linked.current, h.linked.start_fits, near,
      h.serial_fits, h.some_data, h.linked.bounded, h.linked.keep_bounded,
    ) in
    let unknown =
      (query_answers s serial h.linked h.serial_fits).1 far
        (λ p. omega (arith, p, h.distance, h.gone, h.some_data, near, h.serial_fits)) in
    elim (serial_query_answers w query h.linked h.serial_fits
      (omega (arith, h.some_data, h.linked.diffs))) [
        | inl (d, found, sent) ↦ absurd (cc)
        | inr (_, sent) ↦ rw (answers_to, sent) refl
      ]

module _ (ipnet_string : IpNet → Text) where
  refresh_turn-IsLost :
      (s : Server) (router : Client) (c : MonitorClient) (behind now : ℕ)
      → IsLost s c.serial behind
      → behind < 4294967296
      → refresh_turn ipnet_string s router c now ≡ c
  unfolding refresh_turn refresh_queries continuous_rtr refresh_loop send_serial_query
      session_send_pdu new_client_session answers_to_all monitor_all monitor_pdu set_version
  refresh_turn-IsLost s router c behind now h near =
      rw (answers_to-IsLost s router c.session_id c.serial behind h near) refl

  refresh_turns-stays :
      (s : Server) (router : Client) (c : MonitorClient) (behind : ℕ)
      → (turns : List (List Vrp × ℕ)) → IsLost s c.serial behind
      → behind + length turns < 4294967296
      → let (s', c') = refresh_turns ipnet_string s router c turns in
        (c' ≡ c) × IsLost s' c.serial (behind + length turns)
  unfolding refresh_turns
  refresh_turns-stays s router c behind [] h near =
      (refl, subst (IsLost s c.serial) (omega arith) h)
  refresh_turns-stays s router c behind ((new, now) ∷ turns) h near =
      let s' = add_vrps ipnet_string s new in
      let h' = add_vrps-IsLost ipnet_string s c.serial behind new h in
      let same = refresh_turn-IsLost s' router c (behind + 1) now h' (omega (arith, near)) in
      let goes_on = refresh_turns-stays s' router c (behind + 1) turns h' (omega (arith, near)) in
      let total : behind + 1 + length turns ≡ behind + length ((new, now) ∷ turns) = omega arith in
      subst
        (λ x.
          ((refresh_turns ipnet_string s' router x turns).1 ≡ c)
          × IsLost (refresh_turns ipnet_string s' router x turns).0 c.serial
              (behind + length ((new, now) ∷ turns)))
        (sym same)
        (
          goes_on.0,
          subst (IsLost (refresh_turns ipnet_string s' router c turns).0 c.serial) total goes_on.1,
        )

  -- Each refresh of the client, one after each of the server's updates, is answered with a Cache Reset
  -- in the router's version, and with nothing else.
  abbrev pub AllReset : Server → Client → MonitorClient → List (List Vrp × ℕ) → Type 0
  AllReset s router c [] = Unit
  AllReset s router c ((new, now) ∷ turns) =
      let s' = add_vrps ipnet_string s new in
      (answers_to_all s' router (refresh_queries c)
        ≡ cache_reset (record { version = router.version }) ∷ [])
      × AllReset s' router c turns

  refresh_queries-answers :
      (s : Server) (router : Client) (c : MonitorClient) (behind : ℕ)
      → IsLost s c.serial behind
      → behind < 4294967296
      → answers_to_all s router (refresh_queries c)
        ≡ cache_reset (record { version = router.version }) ∷ []
  unfolding refresh_queries continuous_rtr refresh_loop send_serial_query session_send_pdu
      new_client_session answers_to_all set_version
  refresh_queries-answers s router c behind h near =
      rw (answers_to-IsLost s router c.session_id c.serial behind h near) refl

  refresh_turns-AllReset :
      (s : Server) (router : Client) (c : MonitorClient) (behind : ℕ)
      → (turns : List (List Vrp × ℕ)) → IsLost s c.serial behind
      → behind + length turns < 4294967296
      → AllReset s router c turns
  refresh_turns-AllReset s router c behind [] h near = tt
  refresh_turns-AllReset s router c behind ((new, now) ∷ turns) h near =
      let s' = add_vrps ipnet_string s new in
      let h' = add_vrps-IsLost ipnet_string s c.serial behind new h in
      (
        refresh_queries-answers s' router c (behind + 1) h' (omega (arith, near)),
        refresh_turns-AllReset s' router c (behind + 1) turns h' (omega (arith, near)),
      )

  -- Once the server keeps no diff any more for the monitor's serial, the monitor is left behind for
  -- good: whatever the server's lists become, and however many refreshes follow, each after an update,
  -- until the serials have gone all the way round, each is answered with a Cache Reset and nothing
  -- else, the client is what it was, and the server has gone on.
  pub refresh_turns-IsLost :
      (s : Server) (router : Client) (c : MonitorClient) (behind : ℕ)
      → (turns : List (List Vrp × ℕ)) → IsLost s c.serial behind
      → behind + length turns < 4294967296
      → let (s', c') = refresh_turns ipnet_string s router c turns in
        AllReset s router c turns × (c' ≡ c) × IsLost s' c.serial (behind + length turns)
  refresh_turns-IsLost s router c behind turns h near =
      let (same, lost) = refresh_turns-stays s router c behind turns h near in
      (refresh_turns-AllReset s router c behind turns h near, same, lost)
