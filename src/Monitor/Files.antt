-- ===== src/Monitor/Files.antt =====
-- The turns of Start that fetch a file (cmd/rtrmon/rtrmon.go).
pub mod Dates
pub mod Shared
use stayrtr.Prelude.{
  ℕ, ◌+◌, ◌≤◌, ◌≡◌, refl, arith, ap, ◌∙◌, sym, Bool, true, false, Option, none, some, List, [], ◌∷◌,
  Text, text_keys, lookup, insert, lookup-insert, Option-cases, Bool-cases, inl, inr, leb,
  if◌then◌else◌, text_eq, text_eq_iff,
}
use stayrtr.Net.{IpNet}
use stayrtr.Prefixfile.{VrpJson, VrpList, get_asn2, get_prefix2}
use stayrtr.Fetch.{FetchConfig, Outside, Fetched, fetched, failed, fetch_file}
use stayrtr.Monitor.{
  VrpJsonSimple, VrpMap, MonitorClient, monitor_key, first_seen_of, build_one, build_loop,
  grace_one, grace_loop, build_new_vrp_map,
}
use stayrtr.Monitor.Grace.{IsMap, in_grace, prefer, build_new_vrp_map-lookup}

unfoldable pub entries_of : VrpList → List VrpJson
entries_of decoded = elim (decoded.data_of) [ none ↦ [] | some vrps ↦ vrps ]

-- `decode_json` is the function of that name, whose decoder is encoding/json; `none` is an error.
module _ (ipnet_string : IpNet → Text) (parse_cidr : Text → Option IpNet) (uint32_of_float : ℕ → ℕ)
    (parse_http_time : Text → Option ℕ) (decode_json : Text → Option VrpList)
    (grace_period : ℕ) where
  -- a turn, once the fetch has returned: the client, and whether the comparator is told
  unfoldable pub take_fetched : MonitorClient → ℕ → Fetched → MonitorClient × Bool
  take_fetched c now (failed e code lastrefresh) = (c, false)
  take_fetched c now (fetched text code lastrefresh) = elim (decode_json text) [
    | none ↦ (c, false)
    | some decoded ↦ (
      record c {
        vrps =
            (build_new_vrp_map ipnet_string parse_cidr uint32_of_float grace_period c.vrps
              (entries_of decoded) now).0;
        last_update = now;
      },
      true,
    )
  ]

  -- One turn. `now` is the time at which the update is made.
  unfoldable pub fetch_turn :
      MonitorClient × FetchConfig → Outside → ℕ → Text → (MonitorClient × FetchConfig) × Bool
  fetch_turn (c, config) outside now path =
      let (config', result) = fetch_file parse_http_time config outside path in
      let (c', told) = take_fetched c now result in ((c', config'), told)

  -- any number of turns, each with what is outside at its time
  unfoldable pub fetch_turns :
      MonitorClient × FetchConfig → List (Outside × ℕ) → Text → MonitorClient × FetchConfig
  fetch_turns st [] path = st
  fetch_turns st ((outside, now) ∷ turns) path =
      fetch_turns (fetch_turn st outside now path).0 turns path
