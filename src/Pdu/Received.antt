-- ===== src/Pdu/Received.antt =====
-- What a PDU is after one trip over the wire, described without the decoder, and which PDUs fit
-- their fields.
use stayrtr.Prelude.{
  ℕ, ◌+◌, ◌<◌, ◌≤◌, ◌≡◌, ◌≢◌, [], ◌∷◌, ◌++◌, Text, none, length, ◌==◌, if◌then◌else◌,
}
use stayrtr.Net.{to4, to16, ip_bytes, cidr_mask, mask_size}
use stayrtr.Pdu.{
  PduEndOfData, Pdu, serial_notify, serial_query, reset_query, cache_response, ipv4_prefix,
  ipv6_prefix, end_of_data, cache_reset, router_key, error_report, protocol_version_0,
}

abbrev pub Is8 : ℕ → Type 0
Is8 x = x < 256

abbrev pub Is16 : ℕ → Type 0
Is16 x = x < 65536

abbrev pub Is32 : ℕ → Type 0
Is32 x = x < 4294967296

-- Every field is in the range of its Go type, the addresses are of the PDU's family, an End of Data
-- has one of the two versions that have a layout, and an error report fits into a message.
abbrev pub IsWire : Pdu → Type 0
IsWire (serial_notify p) = Is8 p.version × Is16 p.session_id × Is32 p.serial_number
IsWire (serial_query p) = Is8 p.version × Is16 p.session_id × Is32 p.serial_number
IsWire (reset_query p) = Is8 p.version
IsWire (cache_response p) = Is8 p.version × Is16 p.session_id
IsWire (ipv4_prefix p) =
    Is8 p.version
    × Is8 p.max_len
    × Is32 p.asn
    × Is8 p.flags
    × (to4 p.prefix.ip ≢ none)
    × (mask_size p.prefix.mask ≤ 128)
IsWire (ipv6_prefix p) =
    Is8 p.version
    × Is8 p.max_len
    × Is32 p.asn
    × Is8 p.flags
    × (to16 p.prefix.ip ≢ none)
    × (mask_size p.prefix.mask ≤ 128)
IsWire (end_of_data p) =
    (p.version ≤ 1)
    × Is16 p.session_id
    × Is32 p.serial_number
    × Is32 p.refresh_interval
    × Is32 p.retry_interval
    × Is32 p.expire_interval
IsWire (cache_reset p) = Is8 p.version
IsWire (router_key p) =
    Is8 p.version
    × Is8 p.flags
    × (length p.subject_key_identifier ≡ 20)
    × Is32 p.asn
    × Is32 p.subject_public_key_info
IsWire (error_report p) =
    Is8 p.version × Is16 p.error_code × (length p.pdu_copy + length p.error_msg + 17 ≤ 2048)

received_end_of_data : PduEndOfData → PduEndOfData
received_end_of_data p =
    if p.version == protocol_version_0
    then record p { refresh_interval = 0; retry_interval = 0; expire_interval = 0 }
    else p

-- a message that is not empty comes back with its zero byte
received_msg : Text → Text
received_msg [] = []
received_msg (c ∷ t) = (c ∷ t) ++ (0 ∷ [])

-- The addresses come back in the PDU's own family with the canonical mask of the written length,
-- version 0 has no intervals, a router key loses its flags, and a message gains a zero byte.
unfoldable pub received : Pdu → Pdu
unfolding received_end_of_data received_msg
received (ipv4_prefix p) = ipv4_prefix (record p {
  prefix = record {
    ip = ip_bytes (to4 p.prefix.ip);
    mask = cidr_mask (mask_size p.prefix.mask) 32;
  };
})
received (ipv6_prefix p) = ipv6_prefix (record p {
  prefix = record {
    ip = ip_bytes (to16 p.prefix.ip);
    mask = cidr_mask (mask_size p.prefix.mask) 128;
  };
})
received (end_of_data p) = end_of_data (received_end_of_data p)
received (router_key p) = router_key (record p { flags = 0 })
received (error_report p) = error_report (record p { error_msg = received_msg p.error_msg })
received p = p
