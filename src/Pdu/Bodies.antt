-- ===== src/Pdu/Bodies.antt =====
-- Each case of the switch in Decode, on the body that Write makes.
use stayrtr.Prelude.{
  ℕ, ◌+◌, ◌%◌, ◌≤◌, ◌<◌, ◌≡◌, refl, sym, arith, List, [], ◌∷◌, ◌++◌, length, put32, be32-bytes,
  le→leb, length-append, append_assoc, append-nil,
}
use stayrtr.Net.{cidr_mask}
use stayrtr.Pdu.{
  serial_notify, serial_query, ipv4_prefix, ipv6_prefix, end_of_data, router_key, error_report,
}
use stayrtr.Pdu.Decode.{ok, decode_body, uint32, uint32_slice, slice, byte_at}
use stayrtr.Pdu.Ids
use stayrtr.Pdu.Received.{Is32}
use stayrtr.Pdu.Layout.{slice_middle}

module _ (v s n : ℕ) (hn : Is32 n) where
  pub body_serial_notify :
      decode_body v Ids.serial_notify s (put32 n)
      ≡ ok (serial_notify (record { version = v; session_id = s; serial_number = n }))
  unfolding decode_body put32 uint32 uint32_slice
  body_serial_notify = rw (be32-bytes n hn)

  pub body_serial_query :
      decode_body v Ids.serial_query s (put32 n)
      ≡ ok (serial_query (record { version = v; session_id = s; serial_number = n }))
  unfolding decode_body put32 uint32 uint32_slice
  body_serial_query = rw (be32-bytes n hn)

  pub body_end_of_data_v0 :
      decode_body v Ids.end_of_data s (put32 n)
      ≡ ok (
          end_of_data (record {
            version = v;
            session_id = s;
            serial_number = n;
            refresh_interval = 0;
            retry_interval = 0;
            expire_interval = 0;
          }))
  unfolding decode_body put32 uint32 uint32_slice
  body_end_of_data_v0 = rw (be32-bytes n hn)

  pub body_end_of_data_v1 :
      (r t x : ℕ)
      → Is32 r
      → Is32 t
      → Is32 x
      → decode_body v Ids.end_of_data s (put32 n ++ (put32 r ++ (put32 t ++ put32 x)))
        ≡ ok (
            end_of_data (record {
              version = v;
              session_id = s;
              serial_number = n;
              refresh_interval = r;
              retry_interval = t;
              expire_interval = x;
            }))
  unfolding decode_body put32 uint32 uint32_slice slice
  body_end_of_data_v1 r t x hr ht hx =
      rw (be32-bytes n hn, be32-bytes r hr, be32-bytes t ht, be32-bytes x hx)

-- The two kinds of prefix, over an address of `k` bytes.
pub body_ipv4_prefix :
    (v s flags size max_len asn : ℕ) (ip : List ℕ)
    → length ip ≡ 4
    → Is32 asn
    → decode_body v Ids.ipv4_prefix s (flags ∷ size ∷ max_len ∷ 0 ∷ (ip ++ put32 asn))
      ≡ ok (
          ipv4_prefix (record {
            version = v;
            prefix = record { ip = ip; mask = cidr_mask size 32 };
            max_len = max_len;
            asn = asn;
            flags = flags;
          }))
unfolding decode_body put32 uint32 uint32_slice slice byte_at
body_ipv4_prefix v s flags size max_len asn (a ∷ b ∷ c ∷ d ∷ []) hl ha = rw (be32-bytes asn ha)
body_ipv4_prefix v s flags size max_len asn _ hl ha = absurd (omega arith)

pub body_router_key :
    (v s asn spki : ℕ) (ski : List ℕ)
    → length ski ≡ 20
    → Is32 asn
    → Is32 spki
    → decode_body v Ids.router_key s (ski ++ (put32 asn ++ put32 spki))
      ≡ ok (
          router_key (record {
            version = v;
            flags = 0;
            subject_key_identifier = ski;
            asn = asn;
            subject_public_key_info = spki;
          }))
unfolding decode_body uint32 uint32_slice put32
body_router_key v s asn spki ski hl ha hs =
    let b = ski ++ (put32 asn ++ put32 spki) in
    rw
      (
        total,
        slice_middle b (ski ++ put32 asn) (put32 spki) [] 24 28 (sym (append_assoc ski _ _)) front
            refl,
        slice_middle b ski (put32 asn) (put32 spki) 20 24 refl hl refl,
        slice_middle b [] ski (put32 asn ++ put32 spki) 0 20 refl refl (omega arith),
        be32-bytes asn ha,
        be32-bytes spki hs,
      )
      refl
  where
    total : length (ski ++ (put32 asn ++ put32 spki)) ≡ 28
    total = omega (arith, length-append ski (put32 asn ++ put32 spki))

    front : length (ski ++ put32 asn) ≡ 24
    front = omega (arith, length-append ski (put32 asn))

pub body_ipv6_prefix :
    (v s flags size max_len asn : ℕ) (ip : List ℕ)
    → length ip ≡ 16
    → Is32 asn
    → decode_body v Ids.ipv6_prefix s (flags ∷ size ∷ max_len ∷ 0 ∷ (ip ++ put32 asn))
      ≡ ok (
          ipv6_prefix (record {
            version = v;
            prefix = record { ip = ip; mask = cidr_mask size 128 };
            max_len = max_len;
            asn = asn;
            flags = flags;
          }))
unfolding decode_body put32 uint32 uint32_slice byte_at
body_ipv6_prefix v s flags size max_len asn ip hl ha =
    let b = flags ∷ size ∷ max_len ∷ 0 ∷ (ip ++ put32 asn) in
    rw
      (
        total,
        slice_middle b (flags ∷ size ∷ max_len ∷ 0 ∷ []) ip (put32 asn) 4 20 refl refl
            (omega arith),
        slice_middle b (flags ∷ size ∷ max_len ∷ 0 ∷ ip) (put32 asn) [] 20 24 refl (omega arith)
            refl,
        be32-bytes asn ha,
      )
      refl
  where
    total : length (ip ++ put32 asn) ≡ 20
    total = omega (arith, length-append ip (put32 asn))

-- `m` is the text with its zero byte, if it has one.
pub body_error_report :
    (v code : ℕ) (copy m : List ℕ)
    → length copy + length m + 16 ≤ 2048
    → decode_body v Ids.error_report code (put32 (length copy) ++ (copy ++ (put32 (length m) ++ m)))
      ≡ ok
          (error_report (record { version = v; error_code = code; pdu_copy = copy; error_msg = m }))
unfolding decode_body uint32 uint32_slice put32
body_error_report v code copy m h =
    let b = put32 (length copy) ++ (copy ++ (put32 (length m) ++ m)) in
    let k = length copy in
    rw
      (
        le→leb 8 (length b) (omega (arith, total)),
        slice_middle b [] (put32 k) (copy ++ (put32 (length m) ++ m)) 0 4 refl refl refl,
        be32-bytes k (omega arith),
        le→leb (k + 8) (length b) (omega (arith, total)),
        mod32 (k + 4) (omega arith),
        mod32 (k + 8) (omega arith),
        slice_middle b (put32 k) copy (put32 (length m) ++ m) 4 (k + 4) refl refl (omega arith),
        slice_middle b (put32 k ++ copy) (put32 (length m)) m (k + 4) (k + 8) refl (omega arith)
            (omega arith),
        be32-bytes (length m) (omega arith),
        le→leb (k + 8 + length m) (length b) (omega (arith, total)),
        mod32 (k + 8 + length m) (omega arith),
        slice_middle b (put32 k ++ (copy ++ put32 (length m))) m [] (k + 8) (k + 8 + length m)
            regroup (omega (arith, length-append copy (put32 (length m)))) (omega arith),
      )
      refl
  where
    total : length (copy ++ (put32 (length m) ++ m)) ≡ length copy + length m + 4
    total = omega (arith, length-append copy (put32 (length m) ++ m))

    regroup :
        put32 (length copy) ++ (copy ++ (put32 (length m) ++ m))
        ≡ (put32 (length copy) ++ (copy ++ put32 (length m))) ++ (m ++ [])
    regroup = simp (append_assoc, append-nil)

    mod32 : (x : ℕ) → x < 4294967296 → x % 4294967296 ≡ x
    mod32 x hx = omega arith
