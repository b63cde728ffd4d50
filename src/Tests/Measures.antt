-- ===== src/Tests/Measures.antt =====
-- The metrics of the monitor after its comparisons.
use stayrtr.Prelude.{
  ℕ, ◌≤◌, true, false, none, ◌≡◌, refl, arith, some, List, [], ◌∷◌, Text, codes, lookup, inl, inr,
}
use stayrtr.Prelude.Int.{ℤ, pos}
use stayrtr.Pdu.{Pdu, ipv4_prefix, end_of_data}
use stayrtr.Fetch.{new_fetch_config}
use stayrtr.Monitor.System.{System, begin, reports, Reach, begun, moved, first_acts, reads}
use stayrtr.Monitor.System.Settles.{IsCurrent, Serves, Reach-IsCurrent}
use stayrtr.Monitor.System.CatchUp.{Run, Reach-catches_up}
use stayrtr.Monitor.{MonitorClient, monitor_pdu, only_in_first}
use stayrtr.Monitor.Link.{new_monitor_client}
use stayrtr.Monitor.Compare.{Event, finished, new_comparator}
use stayrtr.Monitor.Compare.Gauges.{
  texts_keys, vrp_difference_for_duration, compare_gauges, measure,
}
use stayrtr.Monitor.Compare.Gauges.Shown.{IsMetered, measure-IsMetered}
use stayrtr.Monitor.Compare.Gauges.Ages.{count_old}
use stayrtr.Monitor.Compare.Gauges.Directions.{compare_gauges-differences}
use stayrtr.Tests.{raw_text, parse, no_float, net10}
use stayrtr.Tests.Files.{no_time}
use stayrtr.Tests.Watch.{monitor}

abbrev thresholds : List ℤ
thresholds = pos 0 ∷ pos 56 ∷ []

abbrev told : List (ℕ × Event)
told = (10, finished 1 monitor new_monitor_client) ∷ (20, finished 2 monitor monitor) ∷ []

measure-IsMetered_example :
    let (st, g) = measure 5 thresholds (new_comparator (codes "a") (codes "b")) [] told in
    IsMetered st.comparator g
measure-IsMetered_example = measure-IsMetered 5 thresholds (codes "a") (codes "b") [] told

-- Both clients have one URL: the metric of the first direction has the number of the second.
compare_gauges-differences_example :
    let c = new_comparator (codes "a") (codes "a") in
    let g = compare_gauges 5 thresholds 100 1 c monitor new_monitor_client [] in
    (lookup (vrp_difference_for_duration (codes "a") (codes "a") (pos 56)) g
      ≡ some (count_old 100 (pos 56) (only_in_first new_monitor_client.vrps monitor.vrps)))
    × (lookup (vrp_difference_for_duration (codes "a") (codes "a") (pos 56)) g
        ≡ some (count_old 100 (pos 56) (only_in_first new_monitor_client.vrps monitor.vrps)))
unfolding new_comparator stayrtr.Prelude.text_eq
compare_gauges-differences_example =
    compare_gauges-differences 5 thresholds 100 1 (new_comparator (codes "a") (codes "a")) monitor
      new_monitor_client [] (pos 56) (omega arith, (omega arith, tt)) (inr (inl refl)) (omega arith)

-- The first client has read an answer of one VRP and waits; the second has read nothing.
abbrev start_state : System
start_state = begin (codes "a") (codes "b") false false new_fetch_config

abbrev announcement : Pdu
announcement =
    ipv4_prefix (record { version = 1; prefix = net10; max_len = 24; asn = 7; flags = 1 })

abbrev end_pdu : Pdu
end_pdu = end_of_data (record {
  version = 1;
  session_id = 9;
  serial_number = 5;
  refresh_interval = 3600;
  retry_interval = 600;
  expire_interval = 7200;
})

abbrev after_prefix : MonitorClient
after_prefix = (monitor_pdu raw_text start_state.first 300 announcement).0

abbrev after_end : MonitorClient
after_end = (monitor_pdu raw_text after_prefix 301 end_pdu).0

abbrev reported : System
reported = record start_state { first = after_end; first_waits = true }

reported-Reach :
    Reach raw_text parse no_float no_time
      (λ t. none)
      1200
      (codes "a")
      (codes "b")
      false
      false
      new_fetch_config
      reported
unfolding begin reports
reported-Reach =
    moved (moved begun (first_acts refl (reads 300 announcement)))
      (first_acts refl (reads 301 end_pdu))

Reach-IsCurrent_example : IsCurrent raw_text parse no_float no_time (λ t. none) 1200 reported
Reach-IsCurrent_example =
    Reach-IsCurrent raw_text parse no_float no_time (λ t. none) 1200 reported-Reach

Reach-catches_up_example :
    (n : ℕ) × (t : System) × Run raw_text parse no_float no_time (λ t. none) 1200 reported n t
    × (n ≤ 8)
    × (t.first ≡ reported.first)
    × (t.second ≡ reported.second)
    × Serves t.comparator reported.first.vrps reported.second.vrps
Reach-catches_up_example =
    Reach-catches_up raw_text parse no_float no_time (λ t. none) 1200 (codes "a") (codes "b") false
      false new_fetch_config reported reported-Reach
