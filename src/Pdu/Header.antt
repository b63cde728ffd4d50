-- ===== src/Pdu/Header.antt =====
-- The header of what Decode returns (lib/structs.go).
use stayrtr.Prelude.{
  ℕ, ◌+◌, ◌-◌, ◌≤◌, ◌≡◌, refl, arith, sym, subst, Bool, true, false, some, List, ◌∷◌, length, drop,
  length-drop, leb, leb→le, ◌==◌, ==_iff, be16, be32, if◌then◌else◌, Bool-cases, inl, inr,
}
use stayrtr.Pdu.{Pdu, get_type, get_version, message_max_size}
use stayrtr.Pdu.Ids
use stayrtr.Pdu.Decode.{
  Result, ok, err, DecodeError, ◌>>=◌, ◌>>◌, guard, read_bytes, decode_serial_notify,
  decode_serial_query, decode_reset_query, decode_cache_response, decode_ipv4_prefix,
  decode_ipv6_prefix, decode_end_of_data, decode_cache_reset, decode_router_key,
  decode_error_report, decode_body, decode,
}

-- A PDU that was decoded has this version and this type.
data Has (v t : ℕ) : Result Pdu → Type 0 where
  has : (pdu : Pdu) → get_version pdu ≡ v → get_type pdu ≡ t → Has v t (ok pdu)
  fails : (e : DecodeError) → Has v t (err e)

Has-bind :
    {A : Type 0} {v t : ℕ} (m : Result A) (f : A → Result Pdu)
    → ((a : A) → Has v t (f a))
    → Has v t (m >>= f)
Has-bind (ok a) f h = h a
Has-bind (err e) f h = fails e

module _ (v : ℕ) where
  serial_notify-Has : (s : ℕ) (b : List ℕ) → Has v Ids.serial_notify (decode_serial_notify v s b)
  unfolding decode_serial_notify get_type get_version
  serial_notify-Has s b = search (Has-bind, has) depth 12

  serial_query-Has : (s : ℕ) (b : List ℕ) → Has v Ids.serial_query (decode_serial_query v s b)
  unfolding decode_serial_query get_type get_version
  serial_query-Has s b = search (Has-bind, has) depth 12

  reset_query-Has : (b : List ℕ) → Has v Ids.reset_query (decode_reset_query v b)
  unfolding decode_reset_query get_type get_version
  reset_query-Has b = search (Has-bind, has) depth 12

  cache_response-Has : (s : ℕ) (b : List ℕ) → Has v Ids.cache_response (decode_cache_response v s b)
  unfolding decode_cache_response get_type get_version
  cache_response-Has s b = search (Has-bind, has) depth 12

  ipv4_prefix-Has : (b : List ℕ) → Has v Ids.ipv4_prefix (decode_ipv4_prefix v b)
  unfolding decode_ipv4_prefix get_type get_version
  ipv4_prefix-Has b = search (Has-bind, has) depth 12

  ipv6_prefix-Has : (b : List ℕ) → Has v Ids.ipv6_prefix (decode_ipv6_prefix v b)
  unfolding decode_ipv6_prefix get_type get_version
  ipv6_prefix-Has b = search (Has-bind, has) depth 12

  cache_reset-Has : (b : List ℕ) → Has v Ids.cache_reset (decode_cache_reset v b)
  unfolding decode_cache_reset get_type get_version
  cache_reset-Has b = search (Has-bind, has) depth 12

  router_key-Has : (b : List ℕ) → Has v Ids.router_key (decode_router_key v b)
  unfolding decode_router_key get_type get_version
  router_key-Has b = search (Has-bind, has) depth 12

  error_report-Has : (s : ℕ) (b : List ℕ) → Has v Ids.error_report (decode_error_report v s b)
  unfolding decode_error_report get_type get_version
  error_report-Has s b = search (Has-bind, has) depth 12

  end_of_data-Has : (s : ℕ) (b : List ℕ) → Has v Ids.end_of_data (decode_end_of_data v s b)
  unfolding decode_end_of_data get_type get_version
  end_of_data-Has s b = elim (Bool-cases (length b == 4)) [
    | inl e ↦ rw (decode_end_of_data, e) (search (Has-bind, has) depth 12)
    | inr e ↦ elim (Bool-cases (length b == 16)) [
      | inl e2 ↦ rw (decode_end_of_data, e, e2) (search (Has-bind, has) depth 12)
      | inr e2 ↦ rw (decode_end_of_data, e, e2) (fails _)
    ]
  ]

  -- one case of the switch
  case-Has :
      (t id : ℕ) {here later : Result Pdu}
      → Has v id here
      → Has v t later
      → Has v t (if t == id then here else later)
  case-Has t id {here = here} h k = elim (Bool-cases (t == id)) [
    | inl e ↦ rw e (subst (λ x. Has v x here) (sym ((==_iff t id).0 e)) h)
    | inr e ↦ rw e k
  ]

  body-Has : (t s : ℕ) (b : List ℕ) → Has v t (decode_body v t s b)
  unfolding decode_body
  body-Has t s b = case-Has t _ (serial_notify-Has s b) (
      case-Has t _ (serial_query-Has s b) (
        case-Has t _ (reset_query-Has b) (
          case-Has t _ (cache_response-Has s b) (
            case-Has t _ (ipv4_prefix-Has b) (
              case-Has t _ (ipv6_prefix-Has b) (
                case-Has t _ (end_of_data-Has s b) (
                  case-Has t _ (cache_reset-Has b) (
                    case-Has t _ (router_key-Has b)
                      (case-Has t _ (error_report-Has s b) (fails _))))))))))

-- What Decode returned has this version, this type and this length, if it returned a PDU.
data Framed (v t len n : ℕ) : Result (Pdu × List ℕ) → Type 0 where
  framed :
      (pdu : Pdu) (rest : List ℕ)
      → get_version pdu ≡ v
      → get_type pdu ≡ t
      → 8 ≤ len
      → len ≤ message_max_size
      → n ≡ len + length rest
      → Framed v t len n (ok (pdu, rest))
  refused : (e : DecodeError) → Framed v t len n (err e)

guard-Framed :
    (v t len n : ℕ) (b : Bool) (e : DecodeError) (k : Result (Pdu × List ℕ))
    → (b ≡ true → Framed v t len n k)
    → Framed v t len n (guard b e >> k)
guard-Framed v t len n true e k h = h refl
guard-Framed v t len n false e k h = refused e

body-Framed :
    (v t len n : ℕ) (m : Result Pdu) (rest : List ℕ)
    → Has v t m
    → 8 ≤ len
    → len ≤ message_max_size
    → n ≡ len + length rest
    → Framed v t len n (m >>= λ pdu. ok (pdu, rest))
body-Framed v t len n (ok pdu) rest (has _ version type) h k e = framed pdu rest version type h k e
body-Framed v t len n (err x) rest h i k e = refused x

read-Framed :
    (v t len : ℕ) (r : List ℕ) (f : List ℕ → Result Pdu)
    → ((b : List ℕ) → Has v t (f b))
    → 8 ≤ len
    → len ≤ message_max_size
    → Framed v t len
        (8 + length r)
        (read_bytes (len - 8) r >>= λ p. (f p.0 >>= λ pdu. ok (pdu, p.1)))
unfolding read_bytes
read-Framed v t len r f h low high = elim (Bool-cases (leb (len - 8) (length r))) [
  | inl e ↦
      rw (e, read_bytes)
        (body-Framed v t len (8 + length r) _ (drop (len - 8) r) (h _) low high
          (omega (arith, length-drop (len - 8) r, leb→le _ _ e)))
  | inr e ↦ rw (e, read_bytes) (refused _)
]

decode-Framed :
    (v t s1 s0 l3 l2 l1 l0 : ℕ) (r : List ℕ)
    → Framed v t
        (be32 l3 l2 l1 l0)
        (8 + length r)
        (decode (some (v ∷ t ∷ s1 ∷ s0 ∷ l3 ∷ l2 ∷ l1 ∷ l0 ∷ r)))
unfolding decode
decode-Framed v t s1 s0 l3 l2 l1 l0 r =
    let len = be32 l3 l2 l1 l0 in
    guard-Framed v t len _ (leb 8 len) _ _ (λ low.
      guard-Framed v t len _ (leb len message_max_size) _ _ (λ high.
        read-Framed v t len r (decode_body v t (be16 s1 s0)) (body-Has v t (be16 s1 s0))
          (leb→le _ _ low) (leb→le _ _ high)))

ok_inj : (p q : Pdu × List ℕ) → ok p ≡ ok q → p ≡ q
ok_inj p q e = cc

err-ne-ok : (x : DecodeError) (p : Pdu × List ℕ) → ¬ (err x ≡ ok p)
err-ne-ok x p e = cc

framed-inv :
    {v t len n : ℕ} {m : Result (Pdu × List ℕ)} (p : Pdu × List ℕ)
    → Framed v t len n m
    → m ≡ ok p
    → (get_version p.0 ≡ v)
      × (get_type p.0 ≡ t)
      × (8 ≤ len)
      × (len ≤ message_max_size)
      × (n ≡ len + length p.1)
framed-inv {v} {t} {len} {n} p (framed pdu rest version type low high size) e =
    subst
      (λ q.
        (get_version q.0 ≡ v)
        × (get_type q.0 ≡ t)
        × (8 ≤ len)
        × (len ≤ message_max_size)
        × (n ≡ len + length q.1))
      (ok_inj (pdu, rest) p e) (version, type, low, high, size)
framed-inv p (refused x) e = absurd (err-ne-ok x p e)

-- A PDU that Decode returns is of the version and of the type that the first two bytes say; the
-- length that the header says is at least 8 and at most `message_max_size`; and it is just as many
-- bytes of the input that are taken.
pub decode-header :
    (v t s1 s0 l3 l2 l1 l0 : ℕ) (r : List ℕ) (pdu : Pdu) (rest : List ℕ)
    → decode (some (v ∷ t ∷ s1 ∷ s0 ∷ l3 ∷ l2 ∷ l1 ∷ l0 ∷ r)) ≡ ok (pdu, rest)
    → let len = be32 l3 l2 l1 l0 in
      (get_version pdu ≡ v)
      × (get_type pdu ≡ t)
      × (8 ≤ len)
      × (len ≤ message_max_size)
      × (8 + length r ≡ len + length rest)
decode-header v t s1 s0 l3 l2 l1 l0 r pdu rest e =
    framed-inv (pdu, rest) (decode-Framed v t s1 s0 l3 l2 l1 l0 r) e
