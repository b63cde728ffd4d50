-- ===== src/Tests/Fetching.antt =====
-- Fetches of the JSON file, and the turns of the daemon with them.
use stayrtr.Prelude.{
  inr, ◌≡◌, refl, arith, true, false, none, some, [], ◌∷◌, Text, codes, text_keys, text_eq,
}
use stayrtr.Fetch.{is_url, FetchConfig, new_fetch_config, Response, Outside, request}
use stayrtr.Fetch.Etags.{take_all, request-take_all}
use stayrtr.Feed.Refresh.{Libraries}
use stayrtr.Feed.Turns.{Moment}
use stayrtr.Monitor.{MonitorClient}
use stayrtr.Monitor.Link.{new_monitor_client}
use stayrtr.Monitor.Files.Shared.{shared_turn, shared_turns, second_client_is_starved}
use stayrtr.Tests.{raw_text, parse, no_float}
use stayrtr.Tests.Files.{entries, slurm, no_time}

abbrev pub address : Text
address = codes "http://a/"

abbrev fetching : FetchConfig
fetching = record new_fetch_config { enable_etags = true }

abbrev answer : Response
answer = record { status_code = 200; etag = codes "a"; last_modified = []; body = some (codes "x") }

abbrev broken : Response
broken = record answer { body = none }

abbrev not_modified : Response
not_modified = record answer { status_code = 304; etag = [] }

request-take_all_example :
    (request (take_all no_time fetching address (answer ∷ not_modified ∷ [])) address).if_none_match
    ≡ some (codes "a")
request-take_all_example =
    request-take_all no_time fetching address (answer ∷ not_modified ∷ []) refl

-- every request gets the same answer, and every file can be read
abbrev outside : Outside
outside = record { respond = λ r. some answer; read_file = λ file. some (codes "y") }

abbrev pub libraries : Libraries
libraries = record {
  parse_http_time = no_time;
  new_sha256 = λ t. t;
  decode_json = λ t.
      some (record { metadata = record { counts = 3; buildtime = [] }; data_of = some entries });
  decode_json_slurm = λ t. some slurm;
}

abbrev pub moment : Moment
moment = record { at_slurm = outside; at_file = outside; now = 9; later = 10 }

-- Two clients of the monitor fetch the same file.
second_client_is_starved_example :
    let first : MonitorClient × MonitorClient =
      (record new_monitor_client { serial = 1 }, new_monitor_client) in
    let st =
      shared_turns raw_text parse no_float no_time libraries.decode_json 1200 address
        (first, fetching)
        ((true, outside, 10) ∷ (false, outside, 20) ∷ (true, outside, 30) ∷ []) in
    (st
      ≡ shared_turn raw_text parse no_float no_time libraries.decode_json 1200 address
          (first, fetching)
          true
          outside
          10)
    × (st.0.1 ≡ new_monitor_client)
unfolding is_url text_eq new_fetch_config new_monitor_client
second_client_is_starved_example =
    second_client_is_starved raw_text parse no_float no_time libraries.decode_json 1200 address refl
      (codes "a") (λ e. omega (arith, e)) (record new_monitor_client { serial = 1 })
      new_monitor_client fetching outside 10 answer
      ((false, outside, 20) ∷ (true, outside, 30) ∷ []) refl refl refl refl
      ((λ q. (answer, refl, inr (refl, refl))), ((λ q. (answer, refl, inr (refl, refl))), tt))
