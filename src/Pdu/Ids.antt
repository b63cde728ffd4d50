-- ===== src/Pdu/Ids.antt =====
-- The constants PDU_ID_* of lib/structs.go.
use stayrtr.Prelude.{ℕ}

abbrev pub serial_notify : ℕ
serial_notify = 0

abbrev pub serial_query : ℕ
serial_query = 1

abbrev pub reset_query : ℕ
reset_query = 2

abbrev pub cache_response : ℕ
cache_response = 3

abbrev pub ipv4_prefix : ℕ
ipv4_prefix = 4

abbrev pub ipv6_prefix : ℕ
ipv6_prefix = 6

abbrev pub end_of_data : ℕ
end_of_data = 7

abbrev pub cache_reset : ℕ
cache_reset = 8

abbrev pub router_key : ℕ
router_key = 9

abbrev pub error_report : ℕ
error_report = 10
