-- ===== src/Monitor/Compare/Agree.antt =====
-- Two monitors and their comparison, from the bytes that their servers send (cmd/rtrmon/rtrmon.go).
use stayrtr.Prelude.{ℕ, ◌≡◌, ◌↔◌, arith, ap, some, List, [], Text, text_keys, lookup, All}
use stayrtr.Net.{IpNet}
use stayrtr.Pdu.{Pdu}
use stayrtr.Vrp.{Vrp}
use stayrtr.Diff.Replay.{holds}
use stayrtr.Diff.Merge.{IsAnnounced}
use stayrtr.Client.{Client}
use stayrtr.Client.Answers.{data_answer}
use stayrtr.Session.{ClientSession}
use stayrtr.Session.Stream.{write_all}
use stayrtr.Session.Listener.{IsKept}
use stayrtr.Monitor.{MonitorClient}
use stayrtr.Monitor.Router.{HasFamily}
use stayrtr.Monitor.Link.{new_monitor_client, run_session, run_session-data_answer}
use stayrtr.Monitor.Compare.{Comparator, get_data, compare_clients}
use stayrtr.Monitor.Compare.Same.{only_in_first-nil}

some_inj : {A : Type 0} {x y : A} → some x ≡ some y → x ≡ y
some_inj e = cc

-- A server's answer: the router that it is for, its session, its serial and its VRPs.
pub record Answer : Type 0 where
  pub router : Client
  pub session_id : ℕ
  pub serial : ℕ
  pub vrps : List Vrp

abbrev pub pdus_of : Answer → List Pdu
pdus_of a = data_answer a.router a.session_id a.serial a.vrps

module _ (ipnet_string : IpNet → Text) where
  -- The answer announces its VRPs, their addresses have a family, and the wire keeps its PDUs.
  abbrev pub IsClean : Answer → Type 0
  IsClean a =
      All HasFamily a.vrps
      × ((k : Text) → IsAnnounced ipnet_string k a.vrps)
      × All IsKept (pdus_of a)

  -- Two new monitors each have a session with a server that sends the bytes of one whole answer.
  -- The comparison of the two afterwards finds nothing in either direction exactly if the two
  -- answers have the same keys. This is of answers that announce their VRPs, whose PDUs the wire
  -- keeps and whose addresses have a family.
  pub compare_clients-run_session :
      (c : Comparator) (first second : Answer) (now later : ℕ)
      → IsClean first
      → IsClean second
      → (primary secondary : MonitorClient) × (end1 end2 : ClientSession) × (run_session
            ipnet_string new_monitor_client now
            (write_all (pdus_of first))
          ≡ some (primary, end1))
        × (run_session ipnet_string new_monitor_client later (write_all (pdus_of second))
            ≡ some (secondary, end2))
        × (((compare_clients c primary secondary).only_in1 ≡ some []
              × ((compare_clients c primary secondary).only_in2 ≡ some []))
            ↔ ((k : Text) → holds ipnet_string first.vrps k ≡ holds ipnet_string second.vrps k))
  unfolding compare_clients get_data new_monitor_client lookup
  compare_clients-run_session c first second now later (f1, a1, k1) (f2, a2, k2) =
      let (primary, end1, run1, _, keys1) =
        run_session-data_answer ipnet_string new_monitor_client now first.router first.session_id
          first.serial first.vrps f1 a1 k1 in
      let (secondary, end2, run2, _, keys2) =
        run_session-data_answer ipnet_string new_monitor_client later second.router
          second.session_id second.serial second.vrps f2 a2 k2 in
      let (nothing, all_same) = only_in_first-nil primary.vrps secondary.vrps in
      (
        primary,
        secondary,
        end1,
        end2,
        run1,
        run2,
        (
          λ (e1, e2) k. ground (arith, keys1 k, keys2 k, nothing (some_inj e1, some_inj e2) k),
          λ same.
              let (e1, e2) = all_same (λ k. ground (arith, keys1 k, keys2 k, same k)) in
              (ap some e1, ap some e2),
        ),
      )
