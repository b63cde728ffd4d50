-- ===== src/Tests/Streams.antt =====
-- Clients of the cache: rtrdump, the monitor and the comparison of two of them, from the bytes that the
-- cache sends.
use stayrtr.Prelude.{
  ◌≡◌, ◌↔◌, refl, arith, true, false, some, List, [], ◌∷◌, Text, All, ◌||◌, text_keys,
}
use stayrtr.Net.{to4, to16, mask_size, cidr_mask}
use stayrtr.Pdu.{Pdu, set_version}
use stayrtr.Pdu.Received.{received}
use stayrtr.Diff.Replay.{holds}
use stayrtr.Client.{vrp_pdu}
use stayrtr.Client.Answers.{data_answer}
use stayrtr.Session.{ClientSession, new_client_session, start_rw}
use stayrtr.Session.Listener.{IsKept, listener}
use stayrtr.Session.Stream.{write_all, start_rw_total}
use stayrtr.Dump.{DumpClient, dump_pdu, dump_connected, new_dump_client}
use stayrtr.Monitor.{MonitorClient}
use stayrtr.Monitor.Router.{HasFamily, keys_of}
use stayrtr.Monitor.Link.{new_monitor_client, run_session, run_session-data_answer}
use stayrtr.Monitor.Compare.{Comparator, new_comparator, compare, compare_clients, finished, Event}
use stayrtr.Monitor.Compare.Served.{serve_diff, diff_of_report, serve_diff-compare}
use stayrtr.Monitor.Compare.Agree.{Answer, compare_clients-run_session}
use stayrtr.Tests.{raw_text, router, announced10}
use stayrtr.Tests.Cache.{known}
use stayrtr.Tests.Watch.{monitor, held}

abbrev pub answer : List Pdu
answer = data_answer router 9 5 (announced10 ∷ [])

pub kept : All IsKept answer
unfolding set_version vrp_pdu received to4 to16 mask_size cidr_mask
kept = (
  ((omega arith, omega arith), refl),
  (
    ((omega arith, omega arith, omega arith, omega arith, (λ e. cc), omega arith), refl),
    (((omega arith, omega arith, omega arith, omega arith, omega arith, omega arith), refl), tt),
  ),
)

pub family : All HasFamily (announced10 ∷ [])
unfolding to16
family = ((λ e. cc), tt)

start_rw_total_example :
    (end : DumpClient × ClientSession) × (start_rw
        (listener (dump_pdu raw_text) dump_connected)
        (new_dump_client false 0 0, new_client_session 1 true)
        (1 ∷ 7 ∷ 0 ∷ [])
      ≡ some end)
start_rw_total_example =
    start_rw_total (listener (dump_pdu raw_text) dump_connected) (new_dump_client false 0 0)
      (new_client_session 1 true) (1 ∷ 7 ∷ 0 ∷ [])

run_session-data_answer_example :
    (c' : MonitorClient) × (end : ClientSession) × (run_session raw_text monitor 300
        (write_all answer)
      ≡ some (c', end))
    × (c'.serial ≡ 5)
    × ((k : Text) → keys_of c'.vrps k ≡ (holds raw_text (announced10 ∷ []) k || keys_of held k))
run_session-data_answer_example =
    run_session-data_answer raw_text monitor 300 router 9 5 (announced10 ∷ []) family known kept

abbrev once : Comparator
once = record (new_comparator [] []) { one_off = true }

abbrev running : Comparator
running = new_comparator (97 ∷ []) (98 ∷ [])

abbrev reported : List Event
reported = finished 2 monitor monitor ∷ finished 1 monitor monitor ∷ []

serve_diff-compare_example :
    serve_diff (compare running reported).comparator
    ≡ diff_of_report running (some (monitor, monitor))
unfolding new_comparator
serve_diff-compare_example = serve_diff-compare running reported refl

abbrev full_answer : Answer
full_answer = record { router = router; session_id = 9; serial = 5; vrps = announced10 ∷ [] }

compare_clients-run_session_example :
    (primary secondary : MonitorClient) × (end1 end2 : ClientSession) × (run_session raw_text
        new_monitor_client 300
        (write_all answer)
      ≡ some (primary, end1))
    × (run_session raw_text new_monitor_client 400 (write_all answer) ≡ some (secondary, end2))
    × (((compare_clients once primary secondary).only_in1 ≡ some []
          × ((compare_clients once primary secondary).only_in2 ≡ some []))
        ↔ ((k : Text) → holds raw_text (announced10 ∷ []) k ≡ holds raw_text (announced10 ∷ []) k))
compare_clients-run_session_example =
    compare_clients-run_session raw_text once full_answer full_answer 300 400 (family, known, kept)
      (family, known, kept)
