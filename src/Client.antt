-- ===== src/Client.antt =====
-- The struct Client of lib/server.go, one router's connection, and what it sends.
pub mod Handlers
pub mod Answers
pub mod Connections
pub mod Versions
pub mod Loop
pub mod Pool
pub mod Ssh
pub mod SendLoop
pub mod Raced
pub mod Counters
use stayrtr.Prelude.{ℕ, Bool, true, false, Option, none, some, List, [], ◌∷◌, ◌++◌, Text, codes}
use stayrtr.Net.{to4, to16}
use stayrtr.Pdu.{
  Pdu, serial_notify, cache_response, ipv4_prefix, ipv6_prefix, end_of_data, cache_reset,
  error_report, set_version, error_internal, error_no_data, error_bad_proto_version,
}
use stayrtr.Vrp.{Vrp}

-- The struct Client without its connection, its handlers, which are the server, and its log.
-- `transmits` holds, oldest first, what was put into the channel of that name; it is unbounded, where
-- the channel blocks its sender at 256.
pub record Client : Type 0 where
  pub connected : Bool
  pub version : ℕ
  pub versionset : Bool
  pub curserial : ℕ
  pub transmits : List Pdu
  pub enforce_version : Bool
  pub disable_version_check : Bool
  pub refresh_interval : ℕ
  pub retry_interval : ℕ
  pub expire_interval : ℕ

-- ClientFromConn
unfoldable pub client_from_conn : Client
client_from_conn = record {
  connected = false;
  version = 0;
  versionset = false;
  curserial = 0;
  transmits = [];
  enforce_version = false;
  disable_version_check = false;
  refresh_interval = 0;
  retry_interval = 0;
  expire_interval = 0;
}

unfoldable pub set_intervals : Client → ℕ → ℕ → ℕ → Client
set_intervals c refresh retry expire = record c {
  refresh_interval = refresh;
  retry_interval = retry;
  expire_interval = expire;
}

unfoldable pub set_client_version : Client → ℕ → Client
set_client_version c newversion = record c { versionset = true; version = newversion }

unfoldable pub set_disable_version_check : Client → Bool → Client
set_disable_version_check c disable_check = record c { disable_version_check = disable_check }

unfoldable pub send_raw_pdu : Client → Pdu → Client
send_raw_pdu c pdu = record c { transmits = c.transmits ++ (pdu ∷ []) }

unfoldable pub send_pdu : Client → Pdu → Client
unfolding send_raw_pdu
send_pdu c pdu = send_raw_pdu c (set_version pdu c.version)

unfoldable pub notify : Client → ℕ → ℕ → Client
notify c session_id serial_number =
    send_pdu c (
      serial_notify
        (record { version = 0; session_id = session_id; serial_number = serial_number }))

-- The PDU for a VRP; `none` for an address that is of neither family.
unfoldable pub vrp_pdu : Vrp → Option Pdu
vrp_pdu vrp = elim (to4 vrp.prefix.ip) [
  | some _ ↦ some (
      ipv4_prefix (record {
        version = 0;
        prefix = vrp.prefix;
        max_len = vrp.max_len;
        asn = vrp.asn;
        flags = vrp.flags;
      }))
  | none ↦ elim (to16 vrp.prefix.ip) [
    | some _ ↦ some (
        ipv6_prefix (record {
          version = 0;
          prefix = vrp.prefix;
          max_len = vrp.max_len;
          asn = vrp.asn;
          flags = vrp.flags;
        }))
    | none ↦ none
  ]
]

unfoldable pub send_vrp : Client → Vrp → Client
send_vrp c vrp = elim (vrp_pdu vrp) [ none ↦ c | some pdu ↦ send_pdu c pdu ]

-- the loop of SendVRPs
unfoldable pub send_each : Client → List Vrp → Client
send_each c [] = c
send_each c (vrp ∷ vrps) = send_each (send_vrp c vrp) vrps

unfoldable pub send_vrps : Client → ℕ → ℕ → List Vrp → Client
send_vrps c session_id serial_number vrps =
    let c1 = send_pdu c (cache_response (record { version = 0; session_id = session_id })) in
    let c2 = send_each c1 vrps in
    send_pdu c2 (
      end_of_data (record {
        version = 0;
        session_id = session_id;
        serial_number = serial_number;
        refresh_interval = c2.refresh_interval;
        retry_interval = c2.retry_interval;
        expire_interval = c2.expire_interval;
      }))

unfoldable pub send_cache_reset : Client → Client
send_cache_reset c = send_pdu c (cache_reset (record { version = 0 }))

abbrev pub error_pdu : ℕ → Text → Pdu
error_pdu code msg =
    error_report (record { version = 0; error_code = code; pdu_copy = []; error_msg = msg })

unfoldable pub send_internal_error : Client → Client
send_internal_error c = send_pdu c (error_pdu error_internal (codes "Unknown internal error"))

unfoldable pub send_no_data_error : Client → Client
send_no_data_error c = send_pdu c (error_pdu error_no_data (codes "No data available"))

unfoldable pub send_wrong_version_error : Client → Client
send_wrong_version_error c =
    send_pdu c (error_pdu error_bad_proto_version (codes "Bad protocol version"))
