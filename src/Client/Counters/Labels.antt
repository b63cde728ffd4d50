-- ===== src/Client/Counters/Labels.antt =====
-- What the metric of the received PDUs counts (cmd/stayrtr/stayrtr.go, HandlePDU of metricsEvent).
use stayrtr.Prelude.{
  ℕ, suc, ◌+◌, ◌≡◌, ◌≢◌, refl, arith, ap, ◌∙◌, sym, false, List, [], ◌∷◌, Text, map, ◌==◌,
  if◌then◌else◌, text_keys, text_eq, text_eq_iff, codes, lookup, lookup-insert, Bool-cases, inl,
  inr,
}
use stayrtr.Pdu.{
  Pdu, serial_notify, serial_query, reset_query, cache_response, ipv4_prefix, ipv6_prefix,
  end_of_data, cache_reset, router_key, error_report, get_type, type_to_string,
}
use stayrtr.Client.Counters.{Counters, label_byte, pdu_label, count_so_far, count_pdu, count_pdus}

-- the number of the type that has a label
abbrev type_of : Text → ℕ
type_of t =
    if text_eq t (codes "serial_notify")
    then 0
    else if text_eq t (codes "serial_query")
    then 1
    else if text_eq t (codes "reset_query")
    then 2
    else if text_eq t (codes "cache_response")
    then 3
    else if text_eq t (codes "ipv4_prefix")
    then 4
    else if text_eq t (codes "ipv6_prefix")
    then 6
    else if text_eq t (codes "end_of_data")
    then 7
    else if text_eq t (codes "cache_reset")
    then 8
    else if text_eq t (codes "router_key")
    then 9
    else 10

type_of-label : (p : Pdu) → type_of (pdu_label p) ≡ get_type p
unfolding pdu_label label_byte type_to_string get_type text_eq
type_of-label (serial_notify p) = refl
type_of-label (serial_query p) = refl
type_of-label (reset_query p) = refl
type_of-label (cache_response p) = refl
type_of-label (ipv4_prefix p) = refl
type_of-label (ipv6_prefix p) = refl
type_of-label (end_of_data p) = refl
type_of-label (cache_reset p) = refl
type_of-label (router_key p) = refl
type_of-label (error_report p) = refl

-- the label depends on the type only
label_same : (p q : Pdu) → get_type p ≡ get_type q → pdu_label p ≡ pdu_label q
unfolding pdu_label
label_same p q e = ap (λ t. map label_byte (type_to_string t)) e

-- how many PDUs have the type of `q`
abbrev of_type : Pdu → List Pdu → ℕ
of_type q [] = 0
of_type q (p ∷ pdus) = (if get_type p == get_type q then 1 else 0) + of_type q pdus

count_pdu-adds :
    (m : Counters) (p q : Pdu)
    → count_so_far (lookup (pdu_label q) (count_pdu m p).pdus_recv)
      ≡ (if get_type p == get_type q then 1 else 0)
        + count_so_far (lookup (pdu_label q) m.pdus_recv)
unfolding count_pdu count_so_far
count_pdu-adds m p q =
    let n = suc (count_so_far (lookup (pdu_label p) m.pdus_recv)) in
    let after = lookup-insert (pdu_label p) (pdu_label q) n m.pdus_recv in
    elim (Bool-cases (get_type p == get_type q)) [
      | inl e ↦
          let same : pdu_label p ≡ pdu_label q = label_same p q (ground (arith, e)) in
          let hit = (text_eq_iff (pdu_label p) (pdu_label q)).1 same in
          let before = ap (λ l. count_so_far (lookup l m.pdus_recv)) same in
          ground (arith, after, hit, e, before)
      | inr e ↦
          let apart : pdu_label p ≢ pdu_label q =
            λ same. ground (arith, e, sym (type_of-label p) ∙ ap type_of same ∙ type_of-label q) in
          let miss : text_eq (pdu_label p) (pdu_label q) ≡ false =
            elim (Bool-cases (text_eq (pdu_label p) (pdu_label q))) [
              | inl x ↦ absurd (apart ((text_eq_iff (pdu_label p) (pdu_label q)).0 x))
              | inr x ↦ x
            ] in
          ground (arith, after, miss, e)
    ]

-- Whatever was counted before: for each type, the metric counts one more under its label for each PDU
-- of that type, and none for the PDUs of other types.
count_pdus-of_type :
    (m : Counters) (pdus : List Pdu) (q : Pdu)
    → count_so_far (lookup (pdu_label q) (count_pdus m pdus).pdus_recv)
      ≡ of_type q pdus + count_so_far (lookup (pdu_label q) m.pdus_recv)
unfolding count_pdus
count_pdus-of_type m [] q = omega arith
count_pdus-of_type m (p ∷ pdus) q =
    omega (arith, count_pdus-of_type (count_pdu m p) pdus q, count_pdu-adds m p q)
