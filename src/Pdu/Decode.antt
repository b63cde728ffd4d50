-- ===== src/Pdu/Decode.antt =====
-- Decode and DecodeBytes of lib/structs.go. The reader is the list of the bytes that are still to
-- come; a read that it cannot fill is a `read_error`. A slice or an index out of range is a `panic`.
use stayrtr.Prelude.{
  ℕ, ◌+◌, ◌-◌, List, ◌∷◌, Bool, ◌&&◌, true, false, Option, none, some, length, take, drop,
  get_elem?, leb, ◌==◌, if◌then◌else◌, u32, be16, be32,
}
use stayrtr.Net.{cidr_mask}
use stayrtr.Pdu.{
  Pdu, serial_notify, serial_query, reset_query, cache_response, ipv4_prefix, ipv6_prefix,
  end_of_data, cache_reset, router_key, error_report, message_max_size,
}
use stayrtr.Pdu.Ids

pub data DecodeError : Type 0 where
  nil_reader read_error unknown_type panic : DecodeError
  too_short too_long wrong_length : ℕ → DecodeError

pub data Result (A : Type 0) : Type 0 where
  ok : A → Result A
  err : DecodeError → Result A

infixl 5 ◌>>=◌ ◌>>◌
abbrev pub ◌>>=◌ : {A B : Type 0} → Result A → (A → Result B) → Result B
ok a >>= f = f a
err e >>= f = err e

abbrev pub ◌>>◌ : {B : Type 0} → Result (Unit {0}) → Result B → Result B
m >> k = m >>= λ _. k

-- goes on where the test holds
abbrev pub guard : Bool → DecodeError → Result (Unit {0})
guard true e = ok tt
guard false e = err e

-- b[lo:hi]
unfoldable pub slice : List ℕ → ℕ → ℕ → Result (List ℕ)
slice b lo hi =
    if leb lo hi && leb hi (length b) then ok (take (hi - lo) (drop lo b)) else err panic

-- b[i]
unfoldable pub byte_at : List ℕ → ℕ → Result ℕ
byte_at b i = elim (get_elem? b i) [ none ↦ err panic | some x ↦ ok x ]

-- binary.BigEndian.Uint32(b)
unfoldable pub uint32 : List ℕ → Result ℕ
uint32 (a ∷ b ∷ c ∷ d ∷ _) = ok (be32 a b c d)
uint32 _ = err panic

-- binary.BigEndian.Uint32(b[lo:hi])
unfoldable pub uint32_slice : List ℕ → ℕ → ℕ → Result ℕ
uint32_slice b lo hi = do part ← slice b lo hi; uint32 part

-- binary.Read of a uint8, a uint16, a uint32 and a []byte
unfoldable pub read8 : List ℕ → Result (ℕ × List ℕ)
read8 (a ∷ r) = ok (a, r)
read8 _ = err read_error

unfoldable pub read16 : List ℕ → Result (ℕ × List ℕ)
read16 (a ∷ b ∷ r) = ok (be16 a b, r)
read16 _ = err read_error

unfoldable pub read32 : List ℕ → Result (ℕ × List ℕ)
read32 (a ∷ b ∷ c ∷ d ∷ r) = ok (be32 a b c d, r)
read32 _ = err read_error

unfoldable pub read_bytes : ℕ → List ℕ → Result (List ℕ × List ℕ)
read_bytes n r = if leb n (length r) then ok (take n r, drop n r) else err read_error

-- The cases of the switch in Decode, on the version, the uint16 of the header and the body.
unfoldable pub decode_serial_notify : ℕ → ℕ → List ℕ → Result Pdu
decode_serial_notify pver session toread = do
  guard (length toread == 4) (wrong_length (length toread))
  serial ← uint32 toread
  ok (serial_notify (record { version = pver; session_id = session; serial_number = serial }))

unfoldable pub decode_serial_query : ℕ → ℕ → List ℕ → Result Pdu
decode_serial_query pver session toread = do
  guard (length toread == 4) (wrong_length (length toread))
  serial ← uint32 toread
  ok (serial_query (record { version = pver; session_id = session; serial_number = serial }))

unfoldable pub decode_reset_query : ℕ → List ℕ → Result Pdu
decode_reset_query pver toread = do
  guard (length toread == 0) (wrong_length (length toread))
  ok (reset_query (record { version = pver }))

unfoldable pub decode_cache_response : ℕ → ℕ → List ℕ → Result Pdu
decode_cache_response pver session toread = do
  guard (length toread == 0) (wrong_length (length toread))
  ok (cache_response (record { version = pver; session_id = session }))

unfoldable pub decode_ipv4_prefix : ℕ → List ℕ → Result Pdu
decode_ipv4_prefix pver toread = do
  guard (length toread == 12) (wrong_length (length toread))
  prefix_len ← byte_at toread 1
  ip ← slice toread 4 8
  asn ← uint32_slice toread 8 (length toread)
  flags ← byte_at toread 0
  max_len ← byte_at toread 2
  ok (
      ipv4_prefix (record {
        version = pver;
        prefix = record { ip = ip; mask = cidr_mask prefix_len 32 };
        max_len = max_len;
        asn = asn;
        flags = flags;
      }))

unfoldable pub decode_ipv6_prefix : ℕ → List ℕ → Result Pdu
decode_ipv6_prefix pver toread = do
  guard (length toread == 24) (wrong_length (length toread))
  prefix_len ← byte_at toread 1
  ip ← slice toread 4 20
  asn ← uint32_slice toread 20 (length toread)
  flags ← byte_at toread 0
  max_len ← byte_at toread 2
  ok (
      ipv6_prefix (record {
        version = pver;
        prefix = record { ip = ip; mask = cidr_mask prefix_len 128 };
        max_len = max_len;
        asn = asn;
        flags = flags;
      }))

-- A body of four bytes has no intervals, and they are 0.
unfoldable pub decode_end_of_data : ℕ → ℕ → List ℕ → Result Pdu
decode_end_of_data pver session toread =
    if length toread == 4
    then (do
      serial ← uint32 toread
      ok (
          end_of_data (record {
            version = pver;
            session_id = session;
            serial_number = serial;
            refresh_interval = 0;
            retry_interval = 0;
            expire_interval = 0;
          })))
    else if length toread == 16
    then (do
      serial ← uint32_slice toread 0 4
      refresh ← uint32_slice toread 4 8
      retry ← uint32_slice toread 8 12
      expire ← uint32_slice toread 12 16
      ok (
          end_of_data (record {
            version = pver;
            session_id = session;
            serial_number = serial;
            refresh_interval = refresh;
            retry_interval = retry;
            expire_interval = expire;
          })))
    else err (wrong_length (length toread))

unfoldable pub decode_cache_reset : ℕ → List ℕ → Result Pdu
decode_cache_reset pver toread = do
  guard (length toread == 0) (wrong_length (length toread))
  ok (cache_reset (record { version = pver }))

-- Flags is left at its zero value.
unfoldable pub decode_router_key : ℕ → List ℕ → Result Pdu
decode_router_key pver toread = do
  guard (length toread == 28) (wrong_length (length toread))
  asn ← uint32_slice toread 20 24
  spki ← uint32_slice toread 24 28
  ski ← slice toread 0 20
  ok (
      router_key (record {
        version = pver;
        flags = 0;
        subject_key_identifier = ski;
        asn = asn;
        subject_public_key_info = spki;
      }))

-- The sums of uint32 wrap; the tests are on int.
unfoldable pub decode_error_report : ℕ → ℕ → List ℕ → Result Pdu
decode_error_report pver session toread = do
  guard (leb 8 (length toread)) (wrong_length (length toread))
  len_pdu ← uint32_slice toread 0 4
  guard (leb (len_pdu + 8) (length toread)) (wrong_length (length toread))
  err_pdu ← slice toread 4 (u32 (len_pdu + 4))
  len_err_text ← uint32_slice toread (u32 (len_pdu + 4)) (u32 (len_pdu + 8))
  guard (leb (len_pdu + 8 + len_err_text) (length toread)) (wrong_length (length toread))
  err_msg ← slice toread (u32 (len_pdu + 8)) (u32 (len_pdu + 8 + len_err_text))
  ok (
      error_report
        (record { version = pver; error_code = session; pdu_copy = err_pdu; error_msg = err_msg }))

-- the switch on the PDU type
unfoldable pub decode_body : ℕ → ℕ → ℕ → List ℕ → Result Pdu
unfolding decode_serial_notify decode_serial_query decode_reset_query decode_cache_response
    decode_ipv4_prefix decode_ipv6_prefix decode_end_of_data decode_cache_reset decode_router_key
    decode_error_report
decode_body pver pdu_type session toread =
    if pdu_type == Ids.serial_notify
    then decode_serial_notify pver session toread
    else if pdu_type == Ids.serial_query
    then decode_serial_query pver session toread
    else if pdu_type == Ids.reset_query
    then decode_reset_query pver toread
    else if pdu_type == Ids.cache_response
    then decode_cache_response pver session toread
    else if pdu_type == Ids.ipv4_prefix
    then decode_ipv4_prefix pver toread
    else if pdu_type == Ids.ipv6_prefix
    then decode_ipv6_prefix pver toread
    else if pdu_type == Ids.end_of_data
    then decode_end_of_data pver session toread
    else if pdu_type == Ids.cache_reset
    then decode_cache_reset pver toread
    else if pdu_type == Ids.router_key
    then decode_router_key pver toread
    else if pdu_type == Ids.error_report
    then decode_error_report pver session toread
    else err unknown_type

-- The header and the body, and what is left of the input.
unfoldable pub decode_from : List ℕ → Result (Pdu × List ℕ)
unfolding read8 read16 read32 read_bytes
decode_from rdr = do
  (pver, rdr) ← read8 rdr
  (pdu_type, rdr) ← read8 rdr
  (session, rdr) ← read16 rdr
  (len, rdr) ← read32 rdr
  guard (leb 8 len) (too_short len)
  guard (leb len message_max_size) (too_long len)
  (toread, rdr) ← read_bytes (len - 8) rdr
  pdu ← decode_body pver pdu_type session toread
  ok (pdu, rdr)

-- Decode; `none` is a nil reader.
unfoldable pub decode : Option (List ℕ) → Result (Pdu × List ℕ)
unfolding decode_from
decode none = err nil_reader
decode (some bytes) = decode_from bytes

unfoldable pub decode_bytes : List ℕ → Result Pdu
decode_bytes b = do (pdu, _) ← decode (some b); ok pdu
