-- ===== src/Tests/Refreshes.antt =====
-- A monitor that the server has left behind, and the thresholds of its metric.
use stayrtr.Prelude.{ℕ, ◌≡◌, refl, arith, true, [], ◌∷◌, List}
use stayrtr.Prelude.Int.{pos, negsuc}
use stayrtr.Vrp.{Vrp}
use stayrtr.Monitor.{MonitorClient}
use stayrtr.Monitor.Link.{new_monitor_client}
use stayrtr.Monitor.Refresh.{refresh_turns}
use stayrtr.Monitor.Refresh.Lost.{AllReset, IsLost, refresh_turns-IsLost}
use stayrtr.Monitor.Thresholds.{ltb_ℤ, set_thresholds, thresholds_text}
use stayrtr.Monitor.Thresholds.RoundTrip.{set_thresholds-thresholds_text}
use stayrtr.Tests.{raw_text, cache, router, vrp11}
use stayrtr.Tests.Cache.{cache_linked}

-- a monitor with the serial 3, for which the cache of the serial 5 keeps no diff
abbrev late : MonitorClient
late = record new_monitor_client { serial = 3; session_id = 9 }

cache-IsLost : IsLost cache 3 2
cache-IsLost = record {
  linked = cache_linked;
  some_data = omega arith;
  serial_fits = omega arith;
  distance = omega arith;
  gone = omega arith;
}

abbrev turns : List (List Vrp × ℕ)
turns = ((vrp11 ∷ []), 10) ∷ ([], 20) ∷ []

refresh_turns-IsLost_example :
    let (s', c') = refresh_turns raw_text cache router late turns in
    AllReset raw_text cache router late turns × (c' ≡ late) × IsLost s' 3 4
refresh_turns-IsLost_example =
    refresh_turns-IsLost raw_text cache router late 2 turns cache-IsLost (omega arith)

set_thresholds-thresholds_text_example :
    set_thresholds (pos 8 ∷ []) (thresholds_text (negsuc 4 ∷ pos 0 ∷ pos 56 ∷ []))
    ≡ (negsuc 4 ∷ pos 0 ∷ pos 56 ∷ [], true)
unfolding ltb_ℤ
set_thresholds-thresholds_text_example =
    set_thresholds-thresholds_text (pos 8 ∷ []) (negsuc 4) (pos 0 ∷ pos 56 ∷ [])
      (omega arith, (omega arith, (omega arith, tt))) (refl, (refl, tt))
