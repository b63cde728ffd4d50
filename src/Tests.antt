-- ===== src/Tests.antt =====
-- The theorems at concrete inputs: a small cache, its routers, and the bytes between them.
mod Wire
mod Cache
mod Session
mod Files
mod Watch
mod Fetching
mod Streams
mod Clients
mod Daemon
mod Launch
mod Logins
mod Refreshes
mod Sending
mod Measures
mod Writing
use stayrtr.Prelude.{
  ℕ, true, false, List, [], ◌∷◌, ◌++◌, Text, codes, Option, none, some, text_eq, if◌then◌else◌,
}
use stayrtr.Prelude.Int.{pos, negsuc, ℤ}
use stayrtr.Net.{IpNet}
use stayrtr.Pdu.{PduResetQuery, PduSerialQuery}
use stayrtr.Vrp.{Vrp}
use stayrtr.Server.{Server, ServerConfiguration}
use stayrtr.Client.{Client}
use stayrtr.Client.Handlers.{World}

-- a text for a net.IPNet, which stands for its method String
abbrev raw_text : IpNet → Text
raw_text n = n.ip ++ n.mask

abbrev net10 : IpNet
net10 = record { ip = 10 ∷ 0 ∷ 0 ∷ 0 ∷ []; mask = 255 ∷ 0 ∷ 0 ∷ 0 ∷ [] }

abbrev net11 : IpNet
net11 = record { ip = 11 ∷ 0 ∷ 0 ∷ 0 ∷ []; mask = 255 ∷ 0 ∷ 0 ∷ 0 ∷ [] }

abbrev vrp10 : Vrp
vrp10 = record { prefix = net10; max_len = 24; asn = 7; flags = 0 }

abbrev vrp11 : Vrp
vrp11 = record { prefix = net11; max_len = 16; asn = 8; flags = 0 }

-- the key of `vrp10`: the bytes of its prefix and "-24-7"
abbrev key10 : Text
key10 = 10 ∷ 0 ∷ 0 ∷ 0 ∷ 255 ∷ 0 ∷ 0 ∷ 0 ∷ codes "-24-7"

-- the key of `vrp11`
abbrev key11 : Text
key11 = 11 ∷ 0 ∷ 0 ∷ 0 ∷ 255 ∷ 0 ∷ 0 ∷ 0 ∷ codes "-16-8"

abbrev announced10 : Vrp
announced10 = record vrp10 { flags = 1 }

abbrev withdrawn10 : Vrp
withdrawn10 = vrp10

abbrev announced11 : Vrp
announced11 = record vrp11 { flags = 1 }

abbrev configuration : ServerConfiguration
configuration = record {
  max_conn = pos 0;
  protocol_version = 1;
  enforce_version = false;
  keep_difference = 3;
  sess_id = pos 70000;
  refresh_interval = 0;
  retry_interval = 0;
  expire_interval = 100;
}

-- a cache after its first update, with one VRP and the serial 5
abbrev cache : Server
cache = record {
  base_version = 1;
  clients = 3 ∷ 4 ∷ [];
  sess_id = 9;
  connected = pos 2;
  maxconn = pos 0;
  enforce_version = false;
  vrp_list_diff = (announced10 ∷ []) ∷ [];
  vrp_map_serial = (5, pos 0) ∷ [];
  vrp_list_serial = 5 ∷ [];
  vrp_current = announced10 ∷ [];
  vrp_current_serial = 5;
  keep_diff = 3;
  manualserial = false;
  pdu_refresh_interval = 3600;
  pdu_retry_interval = 600;
  pdu_expire_interval = 7200;
}

abbrev router : Client
router = record {
  connected = true;
  version = 1;
  versionset = true;
  curserial = 0;
  transmits = [];
  enforce_version = false;
  disable_version_check = false;
  refresh_interval = 3600;
  retry_interval = 600;
  expire_interval = 7200;
}

abbrev world : World
world = record { server = cache; client = router; id = 3 }

abbrev reset : PduResetQuery
reset = record { version = 0 }

abbrev query : PduSerialQuery
query = record { version = 1; session_id = 9; serial_number = 4 }

-- stands for net.ParseCIDR
abbrev parse : Text → Option IpNet
parse t =
    if text_eq t (codes "10.0.0.0/8")
    then some net10
    else if text_eq t (codes "11.0.0.0/8")
    then some net11
    else none

abbrev no_float : ℕ → ℕ
no_float bits = 0

abbrev no_number : Text → ℤ
no_number t = pos 0
