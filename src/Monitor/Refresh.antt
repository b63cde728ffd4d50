-- ===== src/Monitor/Refresh.antt =====
-- cmd/rtrmon/rtrmon.go, continuousRTR: the Serial Queries of the monitor, and what becomes of them.
pub mod Lost
use stayrtr.Prelude.{ℕ, true, List, [], ◌∷◌, ◌++◌, Text}
use stayrtr.Net.{IpNet}
use stayrtr.Vrp.{Vrp}
use stayrtr.Pdu.{Pdu, protocol_version_1}
use stayrtr.Server.{Server, Outcome, done, panic, add_vrps}
use stayrtr.Client.{Client}
use stayrtr.Client.Handlers.{pass_simple_handler}
use stayrtr.Session.{ClientSession, new_client_session, send_serial_query}
use stayrtr.Monitor.{MonitorClient, monitor_all}

-- What a select of continuousRTR receives: the session is connected, the session has ended, or the
-- time of a refresh is over, with the client as it is then.
pub data Wake : Type 0 where
  unlocked : Wake
  quitting : Wake
  elapsed : MonitorClient → Wake

-- the loop of continuousRTR, which does not wait for `unlock` any more
unfoldable pub refresh_loop : ClientSession → List Wake → ClientSession
refresh_loop cs [] = cs
refresh_loop cs (unlocked ∷ wakes) = refresh_loop cs wakes
refresh_loop cs (quitting ∷ wakes) = cs
refresh_loop cs (elapsed c ∷ wakes) =
    refresh_loop (send_serial_query cs c.session_id c.serial) wakes

-- continuousRTR, which waits first and sets no timer for that
unfoldable pub continuous_rtr : ClientSession → List Wake → ClientSession
continuous_rtr cs [] = cs
continuous_rtr cs (unlocked ∷ wakes) = refresh_loop cs wakes
continuous_rtr cs (quitting ∷ wakes) = cs
continuous_rtr cs (elapsed c ∷ wakes) = continuous_rtr cs wakes

-- what a server sends to a router that has sent all it had, for one PDU
unfoldable pub answers_to : Server → Client → Pdu → List Pdu
answers_to s router pdu =
    elim (pass_simple_handler
      (record { server = s; client = record router { transmits = [] }; id = 0 }) pdu) [
        | done w ↦ w.client.transmits
        | panic ↦ []
      ]

unfoldable pub answers_to_all : Server → Client → List Pdu → List Pdu
answers_to_all s router [] = []
answers_to_all s router (pdu ∷ pdus) = answers_to s router pdu ++ answers_to_all s router pdus

-- what continuousRTR sends in a session, where the time of one refresh is over with the client `c`
unfoldable pub refresh_queries : MonitorClient → List Pdu
refresh_queries c =
    (continuous_rtr (new_client_session protocol_version_1 true)
      (unlocked ∷ elapsed c ∷ [])).transmits

module _ (ipnet_string : IpNet → Text) where
  -- A refresh at the time `now`: the query, the answer of the server, and what the client makes of it.
  unfoldable pub refresh_turn : Server → Client → MonitorClient → ℕ → MonitorClient
  refresh_turn s router c now =
      monitor_all ipnet_string c now (answers_to_all s router (refresh_queries c))

  -- any number of refreshes, each after an update of the server
  unfoldable pub refresh_turns :
      Server → Client → MonitorClient → List (List Vrp × ℕ) → Server × MonitorClient
  refresh_turns s router c [] = (s, c)
  refresh_turns s router c ((new, now) ∷ turns) =
      let s' = add_vrps ipnet_string s new in
      refresh_turns s' router (refresh_turn s' router c now) turns
