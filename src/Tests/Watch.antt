-- ===== src/Tests/Watch.antt =====
-- A monitor of the cache.
use stayrtr.Prelude.{
  ℕ, ◌≡◌, refl, ap, Option, none, Bool-cases, inl, inr, List, arith, true, false, some, List, [],
  ◌∷◌, Text, All, lookup, text_keys, text_eq, decimal, insert,
}
use stayrtr.Net.{to16}
use stayrtr.Vrp.{Vrp, hash_key, convert_vrp_list_to_map}
use stayrtr.Diff.{compute_diff}
use stayrtr.Vrp.Last.{last_with}
use stayrtr.Diff.Replay.{holds}
use stayrtr.Server.{
  done, get_vrps_serial_diff, add_all, add_vrps, add_vrps_diff, generate_serial, add_serial,
  trim_diffs,
}
use stayrtr.Client.Answers.{data_answer}
use stayrtr.Monitor.{VrpJsonSimple, VrpMap, MonitorClient, monitor_all}
use stayrtr.Monitor.Router.{HasFamily, keys_of}
use stayrtr.Monitor.Grace.{IsMap}
use stayrtr.Prefixfile.{VrpList}
use stayrtr.Fetch.{Outside, new_fetch_config}
use stayrtr.Monitor.Files.{fetch_turns}
use stayrtr.Monitor.Files.Dates.{IsDated, fetch_turns-IsDated}
use stayrtr.Monitor.InStep.{monitor_resync}
use stayrtr.Tests.{
  raw_text, cache, router, parse, no_float, key10, net10, vrp11, announced11, withdrawn10,
}
use stayrtr.Tests.Cache.{cache_linked, known}
use stayrtr.Tests.Files.{entries, no_time}

abbrev seen10 : VrpJsonSimple
seen10 = record { asn = 7; length = 24; prefix = raw_text net10; first_seen = 100; last_seen = 200 }

abbrev pub held : VrpMap
held = (key10, seen10) ∷ []

abbrev pub monitor : MonitorClient
monitor = record {
  vrps_rtr = held;
  vrps = held;
  serial = 5;
  session_id = 9;
  break_rtr = false;
  rtr_refresh = 3600;
  rtr_retry = 600;
  rtr_expire = 7200;
  last_update = 200;
}

abbrev changes : List Vrp
changes = announced11 ∷ withdrawn10 ∷ []

families : All HasFamily changes
unfolding to16
families = ((λ e. cc), ((λ e. cc), tt))

answered :
    get_vrps_serial_diff (add_all raw_text cache ((vrp11 ∷ []) ∷ [])) 5 ≡ done (changes, true)
unfolding get_vrps_serial_diff add_all add_vrps add_vrps_diff generate_serial lookup add_serial
    insert trim_diffs compute_diff convert_vrp_list_to_map text_eq hash_key
answered = refl

monitor_resync_example :
    keys_of (monitor_all raw_text monitor 300 (data_answer router 9 6 changes)).vrps key10
    ≡ holds raw_text (add_all raw_text cache ((vrp11 ∷ []) ∷ [])).vrp_current key10
unfolding last_with hash_key lookup text_eq decimal
monitor_resync_example =
    monitor_resync raw_text cache ((vrp11 ∷ []) ∷ []) monitor key10 cache_linked (known key10)
      (omega arith) (omega arith) ((λ h n. absurd (ground arith)), tt) refl router 300 9 6 changes
      answered families

abbrev unreachable : Outside
unreachable = record { respond = λ r. none; read_file = λ file. none }

abbrev readable : Outside
readable = record { respond = λ r. none; read_file = λ file. some [] }

abbrev decode_entries : Text → Option VrpList
decode_entries text =
    some (record { metadata = record { counts = 3; buildtime = [] }; data_of = some entries })

abbrev turns : List (Outside × ℕ)
turns = (readable, 300) ∷ (unreachable, 400) ∷ (readable, 500) ∷ []

abbrev first_or : ℕ → Option VrpJsonSimple → ℕ
first_or n none = n
first_or n (some e) = e.first_seen

abbrev last_or : ℕ → Option VrpJsonSimple → ℕ
last_or n none = n
last_or n (some e) = e.last_seen

held-IsDated : IsDated 250 held
unfolding lookup
held-IsDated k e found = elim (Bool-cases (text_eq key10 k)) [
  | inl p ↦
      let same : some seen10 ≡ some e = rw (p, lookup) at found in
      let first : 100 ≡ e.first_seen = ap (first_or 0) same in
      let last : 200 ≡ e.last_seen = ap (last_or 0) same in
      (omega (arith, first, last), omega (arith, last))
  | inr p ↦ let none_there : none ≡ some e = rw (p, lookup) at found in cc none_there
]

fetch_turns-IsDated_example :
    let c' =
      (fetch_turns raw_text parse no_float no_time decode_entries 1200
        (monitor, new_fetch_config)
        turns
        []).0 in
    IsMap c'.vrps × IsDated 500 c'.vrps
unfolding lookup
fetch_turns-IsDated_example =
    fetch_turns-IsDated raw_text parse no_float 1200 no_time decode_entries turns
      (monitor, new_fetch_config) 250 [] (omega arith, (omega arith, (omega arith, tt))) (refl, tt)
      held-IsDated
