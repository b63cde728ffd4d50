-- ===== src/Tests/Daemon.antt =====
-- From a file of the daemon to what rtrdump writes.
use stayrtr.Prelude.{
  ◌≡◌, refl, arith, true, false, none, some, List, [], ◌∷◌, Text, map, All, text_keys, lookup,
  insert, text_eq, decimal,
}
use stayrtr.Prelude.Int.{pos}
use stayrtr.Vrp.{Vrp, hash_key, convert_vrp_list_to_map}
use stayrtr.Diff.{compute_diff}
use stayrtr.Diff.Replay.{holds}
use stayrtr.Net.{to4, to16, mask_size, cidr_mask}
use stayrtr.Pdu.{reset_query, set_version}
use stayrtr.Pdu.Received.{received}
use stayrtr.Client.{vrp_pdu}
use stayrtr.Prefixfile.{VrpJson, VrpList}
use stayrtr.Server.{Server, done, add_vrps, add_vrps_diff, generate_serial, add_serial, trim_diffs}
use stayrtr.Client.Answers.{data_answer}
use stayrtr.Client.Handlers.{World, pass_simple_handler}
use stayrtr.Session.{ClientSession}
use stayrtr.Session.Stream.{write_all}
use stayrtr.Session.Listener.{IsKept}
use stayrtr.Monitor.Router.{HasFamily}
use stayrtr.Fetch.{Outside, new_fetch_config}
use stayrtr.Feed.State.{State}
use stayrtr.Feed.Refresh.{Libraries}
use stayrtr.Feed.Turns.{initial_state, Moment, Reach, started, run_start}
use stayrtr.Feed.Fed.{valid_vrps}
use stayrtr.Dump.{run_dump}
use stayrtr.Dump.Whole.{dumped, with_data}
use stayrtr.Dump.Daemon.{run_dump-Reach}
use stayrtr.Tests.{raw_text, cache, router, reset, parse, no_float, no_number, announced10}
use stayrtr.Tests.Cache.{cache_linked, known}
use stayrtr.Tests.Files.{entry10, no_time}

abbrev one_entry : Libraries
one_entry = record {
  parse_http_time = no_time;
  new_sha256 = λ t. t;
  decode_json = λ t.
      some (record {
        metadata = record { counts = 1; buildtime = [] };
        data_of = some (entry10 ∷ []);
      });
  decode_json_slurm = λ t. none;
}

abbrev on_disk : Outside
on_disk = record { respond = λ r. none; read_file = λ file. some [] }

abbrev begin : State
begin = initial_state cache true false new_fetch_config

abbrev at_start : Moment
at_start = record { at_slurm = on_disk; at_file = on_disk; now = 9; later = 10 }

abbrev running : State
running = run_start raw_text parse no_float no_number no_time one_entry begin at_start [] []

-- The server then has a second serial, and the VRP of the entry, as before.
abbrev served : Server
served = record cache {
  vrp_list_diff = (announced10 ∷ []) ∷ ([] ∷ []);
  vrp_map_serial = (5, pos 1) ∷ [];
  vrp_list_serial = 5 ∷ (6 ∷ []);
  vrp_current_serial = 6;
}

served-running : served ≡ running.server
unfolding stayrtr.Feed.process_loop stayrtr.Feed.process_one stayrtr.Feed.is_valid_prefix_length
    run_start stayrtr.Feed.Turns.renew stayrtr.Feed.State.update_from_new_state
    stayrtr.Feed.State.update_from_data stayrtr.Feed.Refresh.update_slurm_if_named
    stayrtr.Feed.Refresh.update_file stayrtr.Feed.Refresh.update_after stayrtr.Fetch.fetch_file
    stayrtr.Fetch.is_url stayrtr.Feed.Refresh.take_file stayrtr.Feed.Refresh.is_identical
    stayrtr.Feed.Refresh.note_fetch initial_state stayrtr.Feed.State.new_vrps add_vrps add_vrps_diff
    stayrtr.Diff.apply_diff compute_diff stayrtr.Diff.emits stayrtr.Feed.Refresh.is_minus_one
    stayrtr.Feed.State.is_stale stayrtr.Feed.State.notify_clients_latest
    stayrtr.Feed.State.with_exceptions stayrtr.Feed.process_data stayrtr.Net.mask_bits
    stayrtr.Net.mask_size stayrtr.Net.to16 stayrtr.Net.to4 stayrtr.Prefixfile.get_asn2
    stayrtr.Prefixfile.get_prefix2 stayrtr.Prefixfile.parse_uint32 stayrtr.Prefixfile.trim_left
    decimal text_eq insert lookup convert_vrp_list_to_map hash_key new_fetch_config add_serial
    trim_diffs generate_serial
served-running = refl

abbrev serving : World
serving = record { server = served; client = router; id = 3 }

family : All HasFamily (announced10 ∷ [])
unfolding to16
family = ((λ e. cc), tt)

kept : All IsKept (data_answer router 9 6 (announced10 ∷ []))
unfolding set_version vrp_pdu received to4 to16 mask_size cidr_mask
kept = (
  ((omega arith, omega arith), refl),
  (
    ((omega arith, omega arith, omega arith, omega arith, (λ e. cc), omega arith), refl),
    (((omega arith, omega arith, omega arith, omega arith, omega arith, omega arith), refl), tt),
  ),
)

run_dump-Reach_example :
    (w' : World) × (end : ClientSession) × (vrps : List Vrp) × (pass_simple_handler serving
        (reset_query reset)
      ≡ done w')
    × (run_dump raw_text false 0 0 (write_all w'.client.transmits)
        ≡ some (with_data raw_text false 0 0 (map (dumped raw_text) vrps), end))
    × ((k : Text)
        → holds raw_text vrps k
          ≡ holds raw_text
              (valid_vrps raw_text parse no_float no_number no_time one_entry none (entry10 ∷ []))
              k)
unfolding initial_state stayrtr.Fetch.fetch_file stayrtr.Fetch.is_url new_fetch_config
run_dump-Reach_example =
    run_dump-Reach raw_text parse no_float no_number no_time one_entry begin [] [] [] serving reset
      running (record { linked = cache_linked; known = known }) refl (started at_start)
      served-running refl (omega arith) family kept (entry10 ∷ []) refl
