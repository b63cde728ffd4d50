-- ===== src/Dump.antt =====
-- cmd/rtrdump/rtrdump.go: a client that writes the VRPs of a server to a file.
pub mod Whole
pub mod Daemon
pub mod Connect
pub mod Output
use stayrtr.Prelude.{
  ℕ, suc, Bool, true, false, Option, none, some, List, [], ◌∷◌, ◌++◌, Text, if◌then◌else◌,
}
use stayrtr.Net.{IpNet}
use stayrtr.Pdu.{Pdu, cache_response, ipv4_prefix, ipv6_prefix, end_of_data, protocol_version_1}
use stayrtr.Prefixfile.{VrpJson, MetaData, VrpList, uint32}
use stayrtr.Prelude.Int.{pos}
use stayrtr.Session.{
  ClientSession, SessionHandler, new_client_session, send_reset_query, send_serial_query, start_rw,
}
use stayrtr.Session.Listener.{listener}

-- The struct Client, which only this program has.
pub record DumpClient : Type 0 where
  pub data_of : VrpList
  pub init_serial : Bool
  pub serial : ℕ
  pub session_id : ℕ

-- the client that main makes from its flags
unfoldable pub new_dump_client : Bool → ℕ → ℕ → DumpClient
new_dump_client init_serial serial session_id = record {
  data_of = record { metadata = record { counts = 0; buildtime = [] }; data_of = some [] };
  init_serial = init_serial;
  serial = serial;
  session_id = session_id;
}

-- `append` on a slice that may be nil
unfoldable pub append_vrp : Option (List VrpJson) → VrpJson → List VrpJson
append_vrp none rj = rj ∷ []
append_vrp (some vrps) rj = vrps ++ (rj ∷ [])

-- ClientConnected
unfoldable pub dump_connected : DumpClient → ClientSession → ClientSession
dump_connected c cs =
    if c.init_serial then send_serial_query cs c.session_id c.serial else send_reset_query cs

module _ (ipnet_string : IpNet → Text) where
  -- the case of a prefix PDU, which is the same for both families
  unfoldable pub dump_prefix : DumpClient → IpNet → ℕ → ℕ → DumpClient
  dump_prefix c prefix max_len asn =
      let rj : VrpJson = record {
        prefix = ipnet_string prefix;
        length = max_len;
        asn = uint32 asn;
        ta = [];
        expires = pos 0;
      } in
      record c {
        data_of = record {
          metadata = record c.data_of.metadata { counts = suc c.data_of.metadata.counts };
          data_of = some (append_vrp c.data_of.data_of rj);
        };
      }

  -- HandlePDU: the client, and whether the session is disconnected. ClientDisconnected does nothing.
  unfoldable pub dump_pdu : DumpClient → Pdu → DumpClient × Bool
  dump_pdu c (ipv4_prefix p) = (dump_prefix c p.prefix p.max_len p.asn, false)
  dump_pdu c (ipv6_prefix p) = (dump_prefix c p.prefix p.max_len p.asn, false)
  dump_pdu c (end_of_data p) = (c, true)
  dump_pdu c (cache_response p) = (c, false)
  dump_pdu c _ = (c, true)

  -- What main writes to the file: the data of its client after the session, for all the bytes that the
  -- server sends. The session has a log.
  unfoldable pub run_dump : Bool → ℕ → ℕ → List ℕ → Option (DumpClient × ClientSession)
  run_dump init_serial serial session_id bytes =
      start_rw (listener dump_pdu dump_connected)
        (new_dump_client init_serial serial session_id, new_client_session protocol_version_1 true)
        bytes
