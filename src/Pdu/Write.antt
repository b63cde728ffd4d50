-- ===== src/Pdu/Write.antt =====
-- The methods Write and Bytes of lib/structs.go: the bytes that each PDU is on the wire.
use stayrtr.Prelude.{
  ℕ, ◌+◌, List, [], ◌∷◌, ◌++◌, not, length, if◌then◌else◌, ◌==◌, put16, put32, text_eq, u8,
}
use stayrtr.Net.{IpNet, to4, to16, ip_bytes, mask_size}
use stayrtr.Pdu.{
  PduSerialNotify, PduSerialQuery, PduResetQuery, PduCacheResponse, PduIpv4Prefix, PduIpv6Prefix,
  PduEndOfData, PduCacheReset, PduRouterKey, PduErrorReport, Pdu, serial_notify, serial_query,
  reset_query, cache_response, ipv4_prefix, ipv6_prefix, end_of_data, cache_reset, router_key,
  error_report, protocol_version_0, protocol_version_1,
}
use stayrtr.Pdu.Ids

-- The first eight bytes of every PDU: version, type, a uint16 and the length.
unfoldable pub header : ℕ → ℕ → ℕ → ℕ → List ℕ
header version id session_id len = u8 version ∷ u8 id ∷ (put16 session_id ++ put32 len)

unfoldable pub write_serial_notify : PduSerialNotify → List ℕ
unfolding header put16 put32
write_serial_notify p = header p.version Ids.serial_notify p.session_id 12 ++ put32 p.serial_number

unfoldable pub write_serial_query : PduSerialQuery → List ℕ
unfolding header put16 put32
write_serial_query p = header p.version Ids.serial_query p.session_id 12 ++ put32 p.serial_number

unfoldable pub write_reset_query : PduResetQuery → List ℕ
unfolding header put16 put32
write_reset_query p = header p.version Ids.reset_query 0 8

unfoldable pub write_cache_response : PduCacheResponse → List ℕ
unfolding header put16 put32
write_cache_response p = header p.version Ids.cache_response p.session_id 8

-- flags, prefix length, maximum length and a zero, then the address and the AS number
unfoldable pub prefix_body : ℕ → IpNet → ℕ → List ℕ → ℕ → List ℕ
unfolding put32
prefix_body flags prefix max_len ip asn =
    u8 flags ∷ u8 (mask_size prefix.mask) ∷ u8 max_len ∷ 0 ∷ (ip ++ put32 asn)

unfoldable pub write_ipv4_prefix : PduIpv4Prefix → List ℕ
unfolding header put16 put32 prefix_body
write_ipv4_prefix p =
    header p.version Ids.ipv4_prefix 0 20
    ++ prefix_body p.flags p.prefix p.max_len (ip_bytes (to4 p.prefix.ip)) p.asn

unfoldable pub write_ipv6_prefix : PduIpv6Prefix → List ℕ
unfolding header put16 put32 prefix_body
write_ipv6_prefix p =
    header p.version Ids.ipv6_prefix 0 32
    ++ prefix_body p.flags p.prefix p.max_len (ip_bytes (to16 p.prefix.ip)) p.asn

-- For a version other than 0 and 1 nothing follows the session.
unfoldable pub write_end_of_data : PduEndOfData → List ℕ
unfolding put16 put32
write_end_of_data p =
    (u8 p.version ∷ u8 Ids.end_of_data ∷ put16 p.session_id)
    ++ (if p.version == protocol_version_0
        then put32 12 ++ put32 p.serial_number
        else if p.version == protocol_version_1
        then put32 24
          ++ (put32 p.serial_number
              ++ (put32 p.refresh_interval ++ (put32 p.retry_interval ++ put32 p.expire_interval)))
        else [])

unfoldable pub write_cache_reset : PduCacheReset → List ℕ
unfolding header put16 put32
write_cache_reset p = header p.version Ids.cache_reset 0 8

unfoldable pub write_router_key : PduRouterKey → List ℕ
unfolding put32
write_router_key p =
    (u8 p.version ∷ u8 Ids.router_key ∷ u8 p.flags ∷ 0 ∷ put32 36)
    ++ (p.subject_key_identifier ++ (put32 p.asn ++ put32 p.subject_public_key_info))

-- A message that is not empty is followed by a zero byte, which both lengths count.
unfoldable pub write_error_report : PduErrorReport → List ℕ
unfolding put16 put32 text_eq
write_error_report p =
    let nonnull = not (text_eq p.error_msg []) in
    let addlen = if nonnull then 1 else 0 in
    (u8 p.version ∷ u8 Ids.error_report ∷ put16 p.error_code)
    ++ (put32 (12 + length p.pdu_copy + 4 + length p.error_msg + addlen)
        ++ (put32 (length p.pdu_copy)
            ++ (p.pdu_copy
                ++ (put32 (length p.error_msg + addlen)
                    ++ (if nonnull then p.error_msg ++ (0 ∷ []) else [])))))

-- PDU.Write and PDU.Bytes, which writes to an empty buffer
unfoldable pub write : Pdu → List ℕ
write (serial_notify p) = write_serial_notify p
write (serial_query p) = write_serial_query p
write (reset_query p) = write_reset_query p
write (cache_response p) = write_cache_response p
write (ipv4_prefix p) = write_ipv4_prefix p
write (ipv6_prefix p) = write_ipv6_prefix p
write (end_of_data p) = write_end_of_data p
write (cache_reset p) = write_cache_reset p
write (router_key p) = write_router_key p
write (error_report p) = write_error_report p
