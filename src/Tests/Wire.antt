-- ===== src/Tests/Wire.antt =====
-- PDUs and their bytes.
use stayrtr.Prelude.{ℕ, ◌≡◌, ◌≢◌, ◌≤◌, ◌+◌, refl, length, arith, some, [], ◌∷◌, ◌++◌}
use stayrtr.Pdu.{Pdu, serial_query, get_version, get_type, message_max_size}
use stayrtr.Pdu.Write.{write}
use stayrtr.Pdu.Decode.{decode, decode_serial_query, ok, err, panic}
use stayrtr.Pdu.Received.{received}
use stayrtr.Pdu.RoundTrip.{decode-write}
use stayrtr.Pdu.Safety.{decode-ne-panic}
use stayrtr.Pdu.Header.{decode-header}
use stayrtr.Tests.{query}

decode-write_example :
    decode (some (write (serial_query query) ++ (7 ∷ [])))
    ≡ ok (received (serial_query query), 7 ∷ [])
decode-write_example =
    decode-write (serial_query query) (7 ∷ []) (omega arith, omega arith, omega arith)

decode-ne-panic_example :
    decode (some (1 ∷ 10 ∷ 0 ∷ 0 ∷ 0 ∷ 0 ∷ 0 ∷ 16 ∷ 255 ∷ 255 ∷ [])) ≢ err panic
decode-ne-panic_example = decode-ne-panic (1 ∷ 10 ∷ 0 ∷ 0 ∷ 0 ∷ 0 ∷ 0 ∷ 16 ∷ 255 ∷ 255 ∷ [])

abbrev read_query : Pdu
read_query = serial_query (record { version = 1; session_id = 9; serial_number = 5 })

decode-header_example :
    (get_version read_query ≡ 1)
    × (get_type read_query ≡ 1)
    × (8 ≤ 12)
    × (12 ≤ message_max_size)
    × (8 + 5 ≡ 12 + length {A = ℕ} (7 ∷ []))
unfolding decode decode_serial_query get_version get_type stayrtr.Pdu.Decode.decode_body
    stayrtr.Pdu.Decode.uint32
decode-header_example =
    decode-header 1 1 0 9 0 0 0 12 (0 ∷ 0 ∷ 0 ∷ 5 ∷ 7 ∷ []) read_query (7 ∷ []) refl
