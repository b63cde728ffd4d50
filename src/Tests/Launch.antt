-- ===== src/Tests/Launch.antt =====
-- The daemon from its flags on, and its connections over TCP and SSH.
use stayrtr.Prelude.{◌≡◌, refl, ap, true, false, [], ◌∷◌, codes, text_eq}
use stayrtr.Prelude.Int.{pos}
use stayrtr.Server.{Server, new_server, set_serial}
use stayrtr.Client.Connections.{occurrences}
use stayrtr.Client.Pool.{is_full, excess}
use stayrtr.Client.Pool.Accepts.{IsApart}
use stayrtr.Client.Handlers.{increment, others, client_connected}
use stayrtr.Client.Ssh.{
  serving, scheduled, new_channel, channel_request, ssh_step, is_rtr_request, rtr_payload, count_up,
}
use stayrtr.Client.Ssh.Counted.{
  IsTallied, Serves, opened, accepted_ssh, moved, open_tunnels, Serves-IsTallied,
}
use stayrtr.Feed.State.{State}
use stayrtr.Feed.Turns.{initial_state, run_start, routine_turn}
use stayrtr.Feed.SameClients.{run_start-SameClients}
use stayrtr.Feed.Fed.{IsFed}
use stayrtr.Startup.{Flags, run_state, refreshed_slurm, has_no_bind}
use stayrtr.Feed.Exported.{IsExported}
use stayrtr.Startup.Exports.{Life-IsExported}
use stayrtr.Startup.Life.{
  Life, launched, turned, accepted, joined, lately, Life-IsApart, Life-IsFed,
}
use stayrtr.Feed.Latest.{latest_of}
use stayrtr.Tests.{raw_text, cache, parse, no_float, no_number}
use stayrtr.Tests.Files.{no_time}
use stayrtr.Tests.Fetching.{address, libraries, moment}

abbrev flags : Flags
flags = record {
  rtr_version = pos 1;
  session_id = pos 7;
  refresh_rtr = pos 3600;
  retry_rtr = pos 600;
  expire_rtr = pos 7200;
  bind = codes ":8282";
  bind_tls = [];
  bind_ssh = [];
  time_check = false;
  cache_bin = address;
  etag = true;
  last_modified = true;
  user_agent = [];
  mime = [];
  max_conn = pos 1;
  send_notifs = true;
  slurm = codes "s";
  slurm_refresh = true;
}

abbrev launch : State
launch =
    run_start raw_text parse no_float no_number no_time libraries (run_state flags 1) moment address
      (codes "s")

abbrev one_turn : State → State
one_turn t =
    routine_turn raw_text parse no_float no_number no_time libraries t moment flags.cache_bin
      (refreshed_slurm flags)

-- Two connections have come, and the second still waits for its start.
abbrev busy : State
busy = one_turn (record launch { server = client_connected launch.server 3 })

launch-Life : Life raw_text parse no_float no_number no_time libraries flags launch []
unfolding has_no_bind
launch-Life = launched 1 moment refl

no_clients : launch.server.clients ≡ []
unfolding run_state initial_state new_server set_serial
no_clients =
    (run_start-SameClients raw_text parse no_float no_number no_time libraries (run_state flags 1)
      moment address (codes "s")).0

busy-Life : Life raw_text parse no_float no_number no_time libraries flags busy (4 ∷ [])
unfolding others
busy-Life =
    let room : is_full launch.server ≡ false =
      (Life-IsApart raw_text parse no_float no_number no_time libraries flags refl launch-Life).0 in
    turned moment (
      joined 3
        (accepted 4 (accepted 3 launch-Life room (ap (occurrences 3) no_clients) refl) room
          (ap (occurrences 4) no_clients) refl)
        refl)

Life-IsApart_example : (is_full busy.server ≡ false) × IsApart busy.server (4 ∷ [])
Life-IsApart_example =
    Life-IsApart raw_text parse no_float no_number no_time libraries flags refl busy-Life

Life-IsFed_example :
    IsFed raw_text parse no_float no_number no_time libraries busy
    × (latest_of busy ≡ lately raw_text parse no_float no_number no_time libraries flags busy-Life)
Life-IsFed_example =
    Life-IsFed raw_text parse no_float no_number no_time libraries flags refl busy-Life

Life-IsExported_example : IsExported raw_text parse no_float busy
Life-IsExported_example =
    Life-IsExported raw_text parse no_float no_number no_time libraries flags busy-Life

-- a server without clients, for two connections at most
abbrev quiet : Server
quiet = record cache { clients = []; connected = pos 0; maxconn = pos 2 }

-- the server with one client over SSH, which takes both places
abbrev served : Server
served = record quiet { clients = 5 ∷ []; connected = pos 2 }

served-Serves : Serves served [] (serving 5 ∷ [])
unfolding ssh_step is_rtr_request rtr_payload text_eq count_up increment client_connected is_full
    excess
served-Serves =
    moved [] [] (channel_request (codes "subsystem") rtr_payload true 5)
      (moved [] [] (new_channel (codes "session") true)
        (moved [] [] scheduled (accepted_ssh (opened {s = quiet} refl refl) refl) tt) tt)
      (refl, refl)

Serves-IsTallied_example : IsTallied served [] (open_tunnels (serving 5 ∷ []))
Serves-IsTallied_example = Serves-IsTallied served-Serves
