-- ===== src/Tests/Writing.antt =====
-- rtrdump from its flags to its file, over a network that connects to the cache.
use stayrtr.Prelude.{
  ℕ, ◌≡◌, refl, arith, true, false, Option, none, some, List, [], ◌∷◌, Text, codes, text_eq,
  if◌then◌else◌,
}
use stayrtr.Prelude.Int.{pos}
use stayrtr.Client.Answers.{sent, reset_query_answers}
use stayrtr.Client.Handlers.{World, on_client}
use stayrtr.Session.Stream.{write_all}
use stayrtr.Session.Connect.{Opening, start_plain, start, auth_to_id}
use stayrtr.Session.Network.{Network, opened, connect, open_plain}
use stayrtr.Dump.Connect.{DumpFlags, dump_start, dump_auth, type_to_id}
use stayrtr.Monitor.Link.{new_monitor_client}
use stayrtr.Monitor.{monitor_pdu}
use stayrtr.Monitor.Connect.{
  Settings, new_settings, is_rtr, session_start, session_auth, scheme_to_id,
}
use stayrtr.Monitor.Turns.{Situation, client_start}
use stayrtr.Monitor.Turns
use stayrtr.Monitor.Turns.Closed.{client_start-write_all}
use stayrtr.Fetch.{new_fetch_config}
use stayrtr.Tests.{parse, no_float}
use stayrtr.Tests.Files.{no_time}
use stayrtr.Dump.Output.{fatal, dump_main}
use stayrtr.Dump.Output.Entries.{is_ended, written, counted, entries}
use stayrtr.Dump.Output.Written.{listed, dump_main-write_all, dump_main-reset_query}
use stayrtr.Tests.{raw_text, world, reset, announced10}
use stayrtr.Tests.Streams.{answer, kept, family}

-- A connection and a session are the bytes that come over them.
abbrev network : Network Text (List ℕ) (List ℕ) (List ℕ)
network = record {
  resolve_tcp_addr = λ addr. some addr;
  dial_tcp = λ addr. some (write_all answer);
  tls_dial = λ addr config. some (write_all answer);
  new_client_conn = λ tcpconn addr config. some tcpconn;
  new_session = λ client. some client;
  request_subsystem = λ session name. true;
  bytes_of = λ tcpconn. tcpconn;
  stdout_of = λ session. session;
}

abbrev getenv : Text → Text
getenv name = []

abbrev read_file : Text → Option Text
read_file name = some name

abbrev parse_key : Text → Option Text
parse_key t = some t

abbrev flags : DumpFlags
flags = record {
  connect = codes "a:8282";
  conn_type = codes "plain";
  validate_cert = true;
  validate_ssh = false;
  ssh_server_key = [];
  ssh_auth = codes "none";
  ssh_auth_user = [];
  ssh_auth_password = [];
  ssh_auth_key = [];
  init_serial = false;
  serial = pos 0;
  session = pos 0;
}

abbrev opening : Opening Text
opening = start_plain (codes "a:8282")

named : dump_start getenv read_file parse_key flags ≡ some opening
unfolding dump_start dump_auth auth_to_id type_to_id start text_eq
named = refl

over_plain : connect network opening ≡ opened (write_all answer)
unfolding connect open_plain
over_plain = refl

dump_main-write_all_example :
    dump_main raw_text network getenv read_file parse_key (λ name. true) flags (codes "o")
    ≡ some (
        if is_ended answer
        then written (λ name. true) (codes "o") (counted (entries raw_text answer))
        else fatal)
dump_main-write_all_example =
    dump_main-write_all raw_text network getenv read_file parse_key (λ name. true) flags (codes "o")
      opening answer named over_plain kept

abbrev answered_world : World
answered_world = on_client world (λ c. sent c answer)

dump_main-reset_query_example :
    dump_main raw_text network getenv read_file parse_key (λ name. true) flags (codes "o")
    ≡ some (written (λ name. true) (codes "o") (listed raw_text (announced10 ∷ [])))
dump_main-reset_query_example =
    dump_main-reset_query raw_text network getenv read_file parse_key (λ name. true) flags
      (codes "o") opening world answered_world reset named (reset_query_answers world reset)
      over_plain refl (omega arith) family kept

-- a path, with its scheme and its host
abbrev monitored : Text
monitored = codes "tcp://a:8282"

abbrev parse_url : Text → Option (Text × Text)
parse_url t = some (codes "tcp", codes "a:8282")

abbrev settings : Settings
settings = record new_settings { path = monitored }

abbrev situation : Situation Text (List ℕ) (List ℕ) (List ℕ)
situation = record {
  now = 300;
  network = network;
  outside = record { respond = λ q. none; read_file = λ t. none };
}

client_start-write_all_example :
    client_start raw_text parse no_float no_time
      (λ t. none)
      1200
      parse_key
      settings
      parse_url
      (new_monitor_client, new_fetch_config)
      (situation ∷ situation ∷ [])
    ≡ some Turns.fatal
unfolding new_settings is_rtr text_eq session_start session_auth start scheme_to_id connect
    open_plain monitor_pdu stayrtr.Pdu.set_version stayrtr.Client.vrp_pdu stayrtr.Net.to4
    stayrtr.Monitor.handle_prefix new_monitor_client
client_start-write_all_example =
    client_start-write_all raw_text parse no_float no_time (λ t. none) 1200 parse_key settings
      parse_url (codes "tcp") (codes "a:8282") new_monitor_client new_fetch_config situation
      (situation ∷ []) opening answer refl refl refl over_plain kept
