-- ===== src/Pdu/Safety.antt =====
-- Decode of lib/structs.go on any input.
use stayrtr.Prelude.{
  ℕ, zero, suc, ◌+◌, ◌-◌, ◌%◌, if◌then◌else◌, ◌≤◌, ◌<◌, ◌≡◌, ◌≢◌, refl, arith, List, [], ◌∷◌,
  length, take, drop, some, leb, leb→le, be16, be32, ◌==◌, Bool-cases, inl, inr, length-take,
  length-drop, Bool, true, false,
}
use stayrtr.Pdu.{Pdu}
use stayrtr.Pdu.Decode.{
  Result, ok, err, panic, ◌>>=◌, ◌>>◌, guard, slice, byte_at, uint32, uint32_slice, decode_body,
  decode, DecodeError, wrong_length, too_short, too_long, read_bytes, decode_serial_notify,
  decode_serial_query, decode_reset_query, decode_cache_response, decode_ipv4_prefix,
  decode_ipv6_prefix, decode_end_of_data, decode_cache_reset, decode_router_key,
  decode_error_report,
}

uint32_total : (b : List ℕ) → 4 ≤ length b → (x : ℕ) × (uint32 b ≡ ok x)
unfolding uint32
uint32_total (a ∷ b ∷ c ∷ d ∷ r) h = (_, refl)
uint32_total [] h = absurd (omega arith)
uint32_total (a ∷ []) h = absurd (omega arith)
uint32_total (a ∷ b ∷ []) h = absurd (omega arith)
uint32_total (a ∷ b ∷ c ∷ []) h = absurd (omega arith)

slice_total :
    (b : List ℕ) (lo hi : ℕ)
    → lo ≤ hi
    → hi ≤ length b
    → (s : List ℕ) × (slice b lo hi ≡ ok s) × (length s ≡ hi - lo)
unfolding slice
slice_total b lo hi h k = (
  take (hi - lo) (drop lo b),
  ground arith,
  length-take (hi - lo) (drop lo b) (omega (arith, length-drop lo b)),
)

uint32_slice_total :
    (b : List ℕ) (lo hi : ℕ) → lo + 4 ≤ hi → hi ≤ length b → (x : ℕ) × (uint32_slice b lo hi ≡ ok x)
unfolding uint32_slice
uint32_slice_total b lo hi h k =
    let (s, e, l) = slice_total b lo hi (omega arith) k in rw e (uint32_total s (omega arith))

guard-ne-panic :
    {A : Type 0} (b : Bool) (e : DecodeError) (k : Result A)
    → e ≢ panic
    → (b ≡ true → k ≢ err panic)
    → (guard b e >> k) ≢ err panic
guard-ne-panic true e k h f = f refl
guard-ne-panic false e k h f = ground (arith, h)

error_report-ne-panic :
    (v s : ℕ) (b : List ℕ) → length b ≤ 2040 → decode_error_report v s b ≢ err panic
unfolding decode_error_report
error_report-ne-panic v s b h =
    guard-ne-panic (leb 8 (length b)) (wrong_length (length b)) _ (λ p. cc)
      (λ h8.
        let (k, ek) =
          uint32_slice_total b 0 4 (omega arith) (omega (arith, leb→le 8 (length b) h8)) in
        rw ek (
          guard-ne-panic (leb (k + 8) (length b)) (wrong_length (length b)) _ (λ p. cc)
            (λ hk.
              let fits = leb→le (k + 8) (length b) hk in
              let w4 : (k + 4) % 4294967296 ≡ k + 4 = omega arith in
              let w8 : (k + 8) % 4294967296 ≡ k + 8 = omega arith in
              let (copy, ec, _) = slice_total b 4 (k + 4) (omega arith) (omega arith) in
              let (n, en) = uint32_slice_total b (k + 4) (k + 8) (omega arith) (omega arith) in
              rw (w4, w8, ec, en)
                (guard-ne-panic (leb (k + 8 + n) (length b)) (wrong_length (length b)) _ (λ p. cc)
                  (λ hn.
                    let within = leb→le (k + 8 + n) (length b) hn in
                    let wn : (k + 8 + n) % 4294967296 ≡ k + 8 + n = omega arith in
                    let (msg, em, _) =
                      slice_total b (k + 8) (k + 8 + n) (omega arith) (omega arith) in
                    rw (wn, em) (λ p. cc))))))

serial_notify-ne-panic : (v s : ℕ) (b : List ℕ) → decode_serial_notify v s b ≢ err panic
unfolding decode_serial_notify
serial_notify-ne-panic v s b =
    guard-ne-panic (length b == 4) (wrong_length (length b)) _ (λ p. cc)
      (λ h. let (x, e) = uint32_total b (ground arith) in rw e (λ p. cc))

serial_query-ne-panic : (v s : ℕ) (b : List ℕ) → decode_serial_query v s b ≢ err panic
unfolding decode_serial_query
serial_query-ne-panic v s b =
    guard-ne-panic (length b == 4) (wrong_length (length b)) _ (λ p. cc)
      (λ h. let (x, e) = uint32_total b (ground arith) in rw e (λ p. cc))

byte_at_total : (b : List ℕ) (i : ℕ) → i < length b → (x : ℕ) × (byte_at b i ≡ ok x)
unfolding byte_at
byte_at_total [] i h = absurd (omega arith)
byte_at_total (x ∷ b) zero h = (x, refl)
byte_at_total (x ∷ b) (suc i) h = byte_at_total b i (omega arith)

ipv4-ne-panic : (v : ℕ) (b : List ℕ) → decode_ipv4_prefix v b ≢ err panic
unfolding decode_ipv4_prefix
ipv4-ne-panic v b =
    guard-ne-panic (length b == 12) (wrong_length (length b)) _ (λ p. cc)
      (λ h.
        let n : length b ≡ 12 = ground arith in
        let (l, el) = byte_at_total b 1 (omega arith) in
        let (ip, ei, _) = slice_total b 4 8 (omega arith) (omega arith) in
        let (a, ea) = uint32_slice_total b 8 (length b) (omega arith) (omega arith) in
        let (f, ef) = byte_at_total b 0 (omega arith) in
        let (m, em) = byte_at_total b 2 (omega arith) in rw (el, ei, ea, ef, em) (λ p. cc))

ipv6-ne-panic : (v : ℕ) (b : List ℕ) → decode_ipv6_prefix v b ≢ err panic
unfolding decode_ipv6_prefix
ipv6-ne-panic v b =
    guard-ne-panic (length b == 24) (wrong_length (length b)) _ (λ p. cc)
      (λ h.
        let n : length b ≡ 24 = ground arith in
        let (l, el) = byte_at_total b 1 (omega arith) in
        let (ip, ei, _) = slice_total b 4 20 (omega arith) (omega arith) in
        let (a, ea) = uint32_slice_total b 20 (length b) (omega arith) (omega arith) in
        let (f, ef) = byte_at_total b 0 (omega arith) in
        let (m, em) = byte_at_total b 2 (omega arith) in rw (el, ei, ea, ef, em) (λ p. cc))

router_key-ne-panic : (v : ℕ) (b : List ℕ) → decode_router_key v b ≢ err panic
unfolding decode_router_key
router_key-ne-panic v b =
    guard-ne-panic (length b == 28) (wrong_length (length b)) _ (λ p. cc)
      (λ h.
        let n : length b ≡ 28 = ground arith in
        let (a, ea) = uint32_slice_total b 20 24 (omega arith) (omega arith) in
        let (k, ek) = uint32_slice_total b 24 28 (omega arith) (omega arith) in
        let (s, es, _) = slice_total b 0 20 (omega arith) (omega arith) in
        rw (ea, ek, es) (λ p. cc))

end_of_data-ne-panic : (v s : ℕ) (b : List ℕ) → decode_end_of_data v s b ≢ err panic
unfolding decode_end_of_data
end_of_data-ne-panic v s b = elim (Bool-cases (length b == 4)) [
  | inl h ↦ let (x, e) = uint32_total b (ground arith) in rw (h, e) (λ p. cc)
  | inr h ↦ rw h (elim (Bool-cases (length b == 16)) [
    | inr k ↦ rw k (λ p. cc)
    | inl k ↦
        let n : length b ≡ 16 = ground arith in
        let (a, ea) = uint32_slice_total b 0 4 (omega arith) (omega arith) in
        let (c, ec) = uint32_slice_total b 4 8 (omega arith) (omega arith) in
        let (d, ed) = uint32_slice_total b 8 12 (omega arith) (omega arith) in
        let (f, ef) = uint32_slice_total b 12 16 (omega arith) (omega arith) in
        rw (k, ea, ec, ed, ef) (λ p. cc)
  ])
]

if-ne-panic :
    {x y : Result Pdu} (b : Bool) → x ≢ err panic → y ≢ err panic → (if b then x else y) ≢ err panic
if-ne-panic true h k = h
if-ne-panic false h k = k

empty-ne-panic :
    (b : List ℕ) (p : Pdu) → (guard (length b == 0) (wrong_length (length b)) >> ok p) ≢ err panic
empty-ne-panic b p =
    guard-ne-panic (length b == 0) (wrong_length (length b)) _ (λ p. cc) (λ h p. cc)

body-ne-panic : (v t s : ℕ) (b : List ℕ) → length b ≤ 2040 → decode_body v t s b ≢ err panic
unfolding decode_body decode_reset_query decode_cache_response decode_cache_reset
body-ne-panic v t s b h = if-ne-panic (t == 0) (serial_notify-ne-panic v s b) (
    if-ne-panic (t == 1) (serial_query-ne-panic v s b) (
      if-ne-panic (t == 2) (empty-ne-panic b _) (
        if-ne-panic (t == 3) (empty-ne-panic b _) (
          if-ne-panic (t == 4) (ipv4-ne-panic v b) (
            if-ne-panic (t == 6) (ipv6-ne-panic v b) (
              if-ne-panic (t == 7) (end_of_data-ne-panic v s b) (
                if-ne-panic (t == 8) (empty-ne-panic b _) (
                  if-ne-panic (t == 9) (router_key-ne-panic v b)
                    (if-ne-panic (t == 10) (error_report-ne-panic v s b h) (λ p. cc))))))))))

read_bytes-ne-panic :
    (n : ℕ) (r : List ℕ) (f : List ℕ × List ℕ → Result (Pdu × List ℕ))
    → ((b rest : List ℕ) → length b ≡ n → f (b, rest) ≢ err panic)
    → (read_bytes n r >>= f) ≢ err panic
unfolding read_bytes
read_bytes-ne-panic n r f h = elim (Bool-cases (leb n (length r))) [
  | inl e ↦ rw e (h (take n r) (drop n r) (length-take n r (leb→le n (length r) e)))
  | inr e ↦ rw e (λ p. cc)
]

bind-ne-panic :
    {A B : Type 0} (m : Result A) (f : A → Result B)
    → m ≢ err panic
    → ((a : A) → f a ≢ err panic)
    → (m >>= f) ≢ err panic
bind-ne-panic (ok a) f h k = k a
bind-ne-panic (err e) f h k = ground (arith, h)

-- Whatever bytes arrive, Decode does not index or slice out of range.
pub decode-ne-panic : (r : List ℕ) → decode (some r) ≢ err panic
unfolding decode
decode-ne-panic (v ∷ t ∷ s1 ∷ s0 ∷ l3 ∷ l2 ∷ l1 ∷ l0 ∷ r) =
    let len = be32 l3 l2 l1 l0 in
    guard-ne-panic (leb 8 len) (too_short len) _ (λ p. cc)
      (λ h8.
        guard-ne-panic (leb len 2048) (too_long len) _ (λ p. cc)
          (λ h. read_bytes-ne-panic (len - 8) r _ (λ b rest hb.
            bind-ne-panic (decode_body v t (be16 s1 s0) b) _
              (body-ne-panic v t _ b (omega (arith, leb→le len 2048 h))) (λ pdu p. cc))))
decode-ne-panic [] = λ p. cc
decode-ne-panic (v ∷ []) = λ p. cc
decode-ne-panic (v ∷ t ∷ []) = λ p. cc
decode-ne-panic (v ∷ t ∷ s1 ∷ []) = λ p. cc
decode-ne-panic (v ∷ t ∷ s1 ∷ s0 ∷ []) = λ p. cc
decode-ne-panic (v ∷ t ∷ s1 ∷ s0 ∷ l3 ∷ []) = λ p. cc
decode-ne-panic (v ∷ t ∷ s1 ∷ s0 ∷ l3 ∷ l2 ∷ []) = λ p. cc
decode-ne-panic (v ∷ t ∷ s1 ∷ s0 ∷ l3 ∷ l2 ∷ l1 ∷ []) = λ p. cc
