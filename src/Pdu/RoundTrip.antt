-- ===== src/Pdu/RoundTrip.antt =====
-- Decode after Write.
use stayrtr.Prelude.{
  ℕ, zero, suc, ◌+◌, ◌*◌, ◌/◌, ◌%◌, ◌≡◌, refl, arith, List, [], ◌∷◌, ◌++◌, some, length, put32,
  length-append, mod-byte,
}
use stayrtr.Net.{to4, to16, ip_bytes, mask_size}
use stayrtr.Net.Addresses.{to4_length, to16_length, ip_bytes_length}
use stayrtr.Pdu.{
  Pdu, serial_notify, serial_query, reset_query, cache_response, ipv4_prefix, ipv6_prefix,
  end_of_data, cache_reset, router_key, error_report,
}
use stayrtr.Pdu.Write.{
  header, prefix_body, write_serial_notify, write_serial_query, write_reset_query,
  write_cache_response, write_ipv4_prefix, write_ipv6_prefix, write_end_of_data, write_cache_reset,
  write_router_key, write_error_report, write,
}
use stayrtr.Pdu.Decode.{ok, decode, decode_body}
use stayrtr.Pdu.Received.{IsWire, received}
use stayrtr.Pdu.Layout.{decode-layout}
use stayrtr.Pdu.Bodies.{
  body_serial_notify, body_serial_query, body_end_of_data_v0, body_end_of_data_v1, body_ipv4_prefix,
  body_ipv6_prefix, body_router_key, body_error_report,
}

write_end_of_data_lem :
    (v s n r t x : ℕ) (rest : List ℕ)
    → IsWire (
        end_of_data (record {
          version = v;
          session_id = s;
          serial_number = n;
          refresh_interval = r;
          retry_interval = t;
          expire_interval = x;
        }))
    → let p = end_of_data (record {
      version = v;
      session_id = s;
      serial_number = n;
      refresh_interval = r;
      retry_interval = t;
      expire_interval = x;
    }) in
      decode (some (write p ++ rest)) ≡ ok (received p, rest)
unfolding write write_end_of_data header received
write_end_of_data_lem zero s n r t x rest (v, hs, hn, hr, ht, hx) =
    decode-layout 0 7 s 12 (put32 n) rest _ (body_end_of_data_v0 0 s n hn) (omega arith)
      (omega arith) hs refl (omega arith)
write_end_of_data_lem (suc zero) s n r t x rest (v, hs, hn, hr, ht, hx) =
    decode-layout 1 7 s 24 (put32 n ++ (put32 r ++ (put32 t ++ put32 x))) rest _
      (body_end_of_data_v1 1 s n hn r t x hr ht hx) (omega arith) (omega arith) hs refl
      (omega arith)
write_end_of_data_lem (suc (suc v)) s n r t x rest h = absurd (omega arith)

write_error_report_lem :
    (v code : ℕ) (copy msg : List ℕ) (rest : List ℕ)
    → IsWire
        (error_report (record { version = v; error_code = code; pdu_copy = copy; error_msg = msg }))
    → let p =
        error_report
          (record { version = v; error_code = code; pdu_copy = copy; error_msg = msg }) in
      decode (some (write p ++ rest)) ≡ ok (received p, rest)
unfolding write write_error_report header received put32
write_error_report_lem v code copy [] rest (hv, hc, hl) =
    decode-layout v 10 code (12 + length copy + 4 + 0 + 0)
      (put32 (length copy) ++ (copy ++ (put32 0 ++ []))) rest _
      (body_error_report v code copy [] (omega arith)) hv (omega arith) hc
      (omega (arith, length-append copy (put32 0 ++ []))) (omega arith)
write_error_report_lem v code copy (c ∷ t) rest (hv, hc, hl) =
    let m = c ∷ (t ++ (0 ∷ [])) in
    let e : length t + 1 ≡ length (t ++ (0 ∷ [])) = omega (arith, length-append t (0 ∷ [])) in
    let f : suc (length t) + 1 ≡ length m = omega arith in
    rw f (
      decode-layout v 10 code (12 + length copy + 4 + suc (length t) + 1)
        (put32 (length copy) ++ (copy ++ (put32 (length m) ++ m))) rest _
        (body_error_report v code copy m (omega arith)) hv (omega arith) hc
        (omega (arith, length-append copy (put32 (length m) ++ m))) (omega arith))

shifted_high : (x : ℕ) → x * 256 / 256 % 256 ≡ x % 256
shifted_high x = omega arith

shifted_low : (x : ℕ) → x * 256 % 256 ≡ 0
shifted_low x = omega arith

-- Decode reads back what Write wrote, for every PDU whose fields are in range, and leaves what
-- follows it in the input. What is read is what was sent but for this: a prefix has the address bytes
-- of its family and the canonical mask of its length, an End of Data of version 0 has no intervals, a
-- Router Key has no flags, and an error message that is not empty has a zero byte at its end.
pub decode-write :
    (p : Pdu) (rest : List ℕ) → IsWire p → decode (some (write p ++ rest)) ≡ ok (received p, rest)
unfolding write received header put32 prefix_body write_serial_notify write_serial_query
    write_reset_query write_cache_response write_ipv4_prefix write_ipv6_prefix write_cache_reset
    write_router_key write_error_report decode_body
decode-write (serial_notify p) rest (v, s, n) =
    decode-layout p.version 0 p.session_id 12 (put32 p.serial_number) rest _
      (body_serial_notify p.version p.session_id p.serial_number n) v (omega arith) s refl
      (omega arith)
decode-write (serial_query p) rest (v, s, n) =
    decode-layout p.version 1 p.session_id 12 (put32 p.serial_number) rest _
      (body_serial_query p.version p.session_id p.serial_number n) v (omega arith) s refl
      (omega arith)
decode-write (reset_query p) rest v =
    decode-layout p.version 2 0 8 [] rest (reset_query p) refl v (omega arith) (omega arith) refl
      (omega arith)
decode-write (cache_response p) rest (v, s) =
    decode-layout p.version 3 p.session_id 8 [] rest (cache_response p) refl v (omega arith) s refl
      (omega arith)
decode-write (ipv4_prefix p) rest (v, m, a, f, i, k) =
    let ip = ip_bytes (to4 p.prefix.ip) in
    let hl = ip_bytes_length 4 (to4 p.prefix.ip) (to4_length p.prefix.ip) i in
    rw (mod-byte p.flags f, mod-byte p.max_len m, mod-byte (mask_size p.prefix.mask) (omega arith))
      (decode-layout p.version 4 0 20
        (p.flags ∷ mask_size p.prefix.mask ∷ p.max_len ∷ 0 ∷ (ip ++ put32 p.asn)) rest _
        (body_ipv4_prefix p.version 0 p.flags (mask_size p.prefix.mask) p.max_len p.asn ip hl a) v
        (omega arith) (omega arith) (omega (arith, hl, length-append ip (put32 p.asn)))
        (omega arith))
decode-write (ipv6_prefix p) rest (v, m, a, f, i, k) =
    let ip = ip_bytes (to16 p.prefix.ip) in
    let hl = ip_bytes_length 16 (to16 p.prefix.ip) (to16_length p.prefix.ip) i in
    rw (mod-byte p.flags f, mod-byte p.max_len m, mod-byte (mask_size p.prefix.mask) (omega arith))
      (decode-layout p.version 6 0 32
        (p.flags ∷ mask_size p.prefix.mask ∷ p.max_len ∷ 0 ∷ (ip ++ put32 p.asn)) rest _
        (body_ipv6_prefix p.version 0 p.flags (mask_size p.prefix.mask) p.max_len p.asn ip hl a) v
        (omega arith) (omega arith) (omega (arith, hl, length-append ip (put32 p.asn)))
        (omega arith))
decode-write (end_of_data p) rest h =
    write_end_of_data_lem p.version p.session_id p.serial_number p.refresh_interval p.retry_interval
      p.expire_interval rest h
decode-write (cache_reset p) rest v =
    decode-layout p.version 8 0 8 [] rest (cache_reset p) refl v (omega arith) (omega arith) refl
      (omega arith)
decode-write (router_key p) rest (v, f, l, a, k) =
    let ski = p.subject_key_identifier in
    let tail = put32 p.asn ++ put32 p.subject_public_key_info in
    rw (shifted_high, shifted_low) at
      (decode-layout p.version 9 (p.flags * 256) 36 (ski ++ tail) rest _
        (body_router_key p.version (p.flags * 256) p.asn p.subject_public_key_info ski l a k) v
        (omega arith) (omega arith) (omega (arith, length-append ski tail)) (omega arith))
decode-write (error_report p) rest h =
    write_error_report_lem p.version p.error_code p.pdu_copy p.error_msg rest h
