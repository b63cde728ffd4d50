-- ===== src/Pdu.antt =====
-- lib/structs.go: the ten PDUs of the RPKI-to-Router protocol, one record for each struct, and the
-- sum of them for the interface PDU.
pub mod Write
pub mod Decode
pub mod Ids
pub mod Received
pub mod Layout
pub mod Bodies
pub mod RoundTrip
pub mod Safety
pub mod Header
use stayrtr.Prelude.{
  ℕ, Bool, true, false, List, ◌++◌, Text, codes, decimal, ltb, ◌==◌, if◌then◌else◌,
}
use stayrtr.Net.{IpNet}
use Ids

abbrev pub message_max_size : ℕ
message_max_size = 2048

abbrev pub protocol_version_0 : ℕ
protocol_version_0 = 0

abbrev pub protocol_version_1 : ℕ
protocol_version_1 = 1

abbrev pub flag_added : ℕ
flag_added = 1

abbrev pub flag_removed : ℕ
flag_removed = 0

abbrev pub error_internal : ℕ
error_internal = 1

abbrev pub error_no_data : ℕ
error_no_data = 2

abbrev pub error_bad_proto_version : ℕ
error_bad_proto_version = 4

pub record PduSerialNotify : Type 0 where
  pub version : ℕ
  pub session_id : ℕ
  pub serial_number : ℕ

pub record PduSerialQuery : Type 0 where
  pub version : ℕ
  pub session_id : ℕ
  pub serial_number : ℕ

pub record PduResetQuery : Type 0 where
  pub version : ℕ

pub record PduCacheResponse : Type 0 where
  pub version : ℕ
  pub session_id : ℕ

pub record PduIpv4Prefix : Type 0 where
  pub version : ℕ
  pub prefix : IpNet
  pub max_len : ℕ
  pub asn : ℕ
  pub flags : ℕ

pub record PduIpv6Prefix : Type 0 where
  pub version : ℕ
  pub prefix : IpNet
  pub max_len : ℕ
  pub asn : ℕ
  pub flags : ℕ

pub record PduEndOfData : Type 0 where
  pub version : ℕ
  pub session_id : ℕ
  pub serial_number : ℕ
  pub refresh_interval : ℕ
  pub retry_interval : ℕ
  pub expire_interval : ℕ

pub record PduCacheReset : Type 0 where
  pub version : ℕ

pub record PduRouterKey : Type 0 where
  pub version : ℕ
  pub flags : ℕ
  pub subject_key_identifier : List ℕ  -- [20]byte
  pub asn : ℕ
  pub subject_public_key_info : ℕ

pub record PduErrorReport : Type 0 where
  pub version : ℕ
  pub error_code : ℕ
  pub pdu_copy : List ℕ
  pub error_msg : Text

-- The interface PDU: a value of one of the ten structs.
pub data Pdu : Type 0 where
  serial_notify : PduSerialNotify → Pdu
  serial_query : PduSerialQuery → Pdu
  reset_query : PduResetQuery → Pdu
  cache_response : PduCacheResponse → Pdu
  ipv4_prefix : PduIpv4Prefix → Pdu
  ipv6_prefix : PduIpv6Prefix → Pdu
  end_of_data : PduEndOfData → Pdu
  cache_reset : PduCacheReset → Pdu
  router_key : PduRouterKey → Pdu
  error_report : PduErrorReport → Pdu

-- SetVersion of each struct
unfoldable pub set_version : Pdu → ℕ → Pdu
set_version (serial_notify p) v = serial_notify (record p { version = v })
set_version (serial_query p) v = serial_query (record p { version = v })
set_version (reset_query p) v = reset_query (record p { version = v })
set_version (cache_response p) v = cache_response (record p { version = v })
set_version (ipv4_prefix p) v = ipv4_prefix (record p { version = v })
set_version (ipv6_prefix p) v = ipv6_prefix (record p { version = v })
set_version (end_of_data p) v = end_of_data (record p { version = v })
set_version (cache_reset p) v = cache_reset (record p { version = v })
set_version (router_key p) v = router_key (record p { version = v })
set_version (error_report p) v = error_report (record p { version = v })

-- GetVersion of each struct
unfoldable pub get_version : Pdu → ℕ
get_version (serial_notify p) = p.version
get_version (serial_query p) = p.version
get_version (reset_query p) = p.version
get_version (cache_response p) = p.version
get_version (ipv4_prefix p) = p.version
get_version (ipv6_prefix p) = p.version
get_version (end_of_data p) = p.version
get_version (cache_reset p) = p.version
get_version (router_key p) = p.version
get_version (error_report p) = p.version

-- GetType of each struct
unfoldable pub get_type : Pdu → ℕ
get_type (serial_notify p) = Ids.serial_notify
get_type (serial_query p) = Ids.serial_query
get_type (reset_query p) = Ids.reset_query
get_type (cache_response p) = Ids.cache_response
get_type (ipv4_prefix p) = Ids.ipv4_prefix
get_type (ipv6_prefix p) = Ids.ipv6_prefix
get_type (end_of_data p) = Ids.end_of_data
get_type (cache_reset p) = Ids.cache_reset
get_type (router_key p) = Ids.router_key
get_type (error_report p) = Ids.error_report

is_router_key : Pdu → Bool
is_router_key (router_key p) = true
is_router_key _ = false

unfoldable pub is_correct_pdu_version : Pdu → ℕ → Bool
unfolding is_router_key
is_correct_pdu_version pdu version =
    if ltb 1 version
    then false
    else if is_router_key pdu
    then (if version == 0 then false else true)
    else true

unfoldable pub type_to_string : ℕ → Text
type_to_string t =
    if t == Ids.serial_notify
    then codes "Serial Notify"
    else if t == Ids.serial_query
    then codes "Serial Query"
    else if t == Ids.reset_query
    then codes "Reset Query"
    else if t == Ids.cache_response
    then codes "Cache Response"
    else if t == Ids.ipv4_prefix
    then codes "IPv4 Prefix"
    else if t == Ids.ipv6_prefix
    then codes "IPv6 Prefix"
    else if t == Ids.end_of_data
    then codes "End of Data"
    else if t == Ids.cache_reset
    then codes "Cache Reset"
    else if t == Ids.router_key
    then codes "Router Key"
    else if t == Ids.error_report
    then codes "Error Report"
    else codes "Unknown type " ++ decimal t
