-- ===== src/Feed/Metrics/Sums.antt =====
-- What the numbers of the gauge add up to (cmd/stayrtr/stayrtr.go, updateFromNewState).
use stayrtr.Prelude.{
  ℕ, ◌+◌, ◌≤◌, ◌≡◌, ◌≢◌, arith, ap, ◌∙◌, Option, none, some, List, [], ◌∷◌, ◌++◌, Text, length,
  length-append, Bool-cases, Option-cases, inl, inr, text_keys, lookup,
}
use stayrtr.Net.{IpNet, to4, to16}
use stayrtr.Vrp.{Vrp}
use stayrtr.Prefixfile.{VrpJson, get_asn2, get_prefix2}
use stayrtr.Feed.{
  Processed, nothing_processed, is_valid_prefix_length, count_family, process_key,
  add_unless_duplicate, process_one, process_loop, process_data,
}
use stayrtr.Feed.Metrics.{update_metrics, count_dup, number_of_vrps}

-- how many VRPs have an IPv4 address, and how many an IPv6 address
abbrev four : Vrp → ℕ
four v = elim (to4 v.prefix.ip) [ some _ ↦ 1 | none ↦ 0 ]

abbrev six : Vrp → ℕ
six v = elim (to4 v.prefix.ip) [
  | some _ ↦ 0
  | none ↦ elim (to16 v.prefix.ip) [ some _ ↦ 1 | none ↦ 0 ]
]

abbrev sum_of : (Vrp → ℕ) → List Vrp → ℕ
sum_of f [] = 0
sum_of f (v ∷ vrps) = f v + sum_of f vrps

sum_of-append : (f : Vrp → ℕ) (xs ys : List Vrp) → sum_of f (xs ++ ys) ≡ sum_of f xs + sum_of f ys
sum_of-append f [] ys = omega arith
sum_of-append f (x ∷ xs) ys = omega (arith, sum_of-append f xs ys)

both : {a b c d : ℕ} → a ≡ b → c ≡ d → ◌≡◌ {A = ℕ × ℕ} (a, c) (b, d)
both {b = b} {c = c} p q = ap (λ x. (x, c)) p ∙ ap (λ x. (b, x)) q

count_dup_step :
    (vrps : List Vrp) (o4 o16 : Option (List ℕ)) (a b : ℕ)
    → ((a b : ℕ) → count_dup a b vrps ≡ (a + sum_of four vrps, b + sum_of six vrps))
    → ◌≡◌ {A = ℕ × ℕ}
        (elim o4 [
          | some _ ↦ count_dup (a + 1) b vrps
          | none ↦ elim o16 [ some _ ↦ count_dup a (b + 1) vrps | none ↦ count_dup a b vrps ]
        ])
        (
          a + ((elim o4 [ some _ ↦ 1 | none ↦ 0 ]) + sum_of four vrps),
          b
              + ((elim o4 [ some _ ↦ 0 | none ↦ elim o16 [ some _ ↦ 1 | none ↦ 0 ] ])
                  + sum_of six vrps),
        )
count_dup_step vrps (some x) o16 a b ih = ih (a + 1) b ∙ both (omega arith) (omega arith)
count_dup_step vrps none (some x) a b ih = ih a (b + 1) ∙ both (omega arith) (omega arith)
count_dup_step vrps none none a b ih = ih a b ∙ both (omega arith) (omega arith)

count_dup-sums :
    (vrps : List Vrp) (a b : ℕ) → count_dup a b vrps ≡ (a + sum_of four vrps, b + sum_of six vrps)
unfolding count_dup
count_dup-sums [] a b = both (omega arith) (omega arith)
count_dup-sums (v ∷ vrps) a b =
    count_dup_step vrps (to4 v.prefix.ip) (to16 v.prefix.ip) a b (λ a b. count_dup-sums vrps a b)

-- The counts of processData are not below those of its list, each entry of which has a family.
record IsSummed (st : Processed) : Type 0 where
  le4 : sum_of four st.vrplist ≤ st.countv4
  le6 : sum_of six st.vrplist ≤ st.countv6
  each : sum_of four st.vrplist + sum_of six st.vrplist ≡ length st.vrplist

count_family-adds :
    (st : Processed) (v : Vrp)
    → to16 v.prefix.ip ≢ none
    → ((count_family st v.prefix).vrplist ≡ st.vrplist)
      × ((count_family st v.prefix).countv4 ≡ st.countv4 + four v)
      × ((count_family st v.prefix).countv6 ≡ st.countv6 + six v)
      × (four v + six v ≡ 1)
unfolding count_family
count_family-adds st v family = elim (Option-cases (to4 v.prefix.ip)) [
  | inr (x, e) ↦ ground (arith, e)
  | inl e ↦ elim (Option-cases (to16 v.prefix.ip)) [
    | inr (x, e2) ↦ ground (arith, e, e2)
    | inl e2 ↦ absurd (family e2)
  ]
]

module _ (ipnet_string : IpNet → Text) where
  add_unless_duplicate-IsSummed :
      (st : Processed) (prefix : IpNet) (asn max_len : ℕ)
      → to16 prefix.ip ≢ none
      → IsSummed st
      → IsSummed (add_unless_duplicate ipnet_string (count_family st prefix) prefix asn max_len)
  unfolding add_unless_duplicate
  add_unless_duplicate-IsSummed st prefix asn max_len family h =
      let v : Vrp = record { prefix = prefix; max_len = max_len; asn = asn; flags = 0 } in
      let key = process_key ipnet_string prefix asn max_len in
      let counted = count_family st prefix in
      let (list, more4, more6, one) = count_family-adds st v family in
      elim (Option-cases (lookup key counted.filter_duplicates)) [
        | inr (x, e) ↦
            rw (add_unless_duplicate, e)
              (record {
                le4 = rw (list, more4) (omega (arith, h.le4));
                le6 = rw (list, more6) (omega (arith, h.le6));
                each = rw list h.each;
              })
        | inl e ↦
            rw (add_unless_duplicate, e)
              (record {
                le4 =
                    rw (list, more4) (omega (arith, h.le4, sum_of-append four st.vrplist (v ∷ [])));
                le6 =
                    rw (list, more6) (omega (arith, h.le6, sum_of-append six st.vrplist (v ∷ [])));
                each = rw list (
                    omega (
                      arith,
                      h.each,
                      one,
                      sum_of-append four st.vrplist (v ∷ []),
                      sum_of-append six st.vrplist (v ∷ []),
                      length-append st.vrplist (v ∷ []),
                    ));
              })
      ]

module _ (ipnet_string : IpNet → Text) (parse_cidr : Text → Option IpNet) (uint32_of_float : ℕ → ℕ)
    (families : (t : Text) (n : IpNet) → parse_cidr t ≡ some n → to16 n.ip ≢ none) where
  process_one-IsSummed :
      (st : Processed) (v : VrpJson)
      → IsSummed st
      → IsSummed (process_one ipnet_string parse_cidr uint32_of_float st v)
  unfolding process_one get_prefix2
  process_one-IsSummed st v h = elim (Option-cases (get_prefix2 parse_cidr uint32_of_float v)) [
    | inl e ↦ rw (e, process_one) h
    | inr (prefix, e) ↦ elim (Option-cases (get_asn2 parse_cidr uint32_of_float v)) [
      | inl e2 ↦ rw (e, e2, process_one) h
      | inr (asn, e2) ↦ elim (Bool-cases (is_valid_prefix_length prefix v.length)) [
        | inr e3 ↦ rw (e, e2, e3, process_one) h
        | inl e3 ↦
            rw (e, e2, e3, process_one)
              (add_unless_duplicate-IsSummed ipnet_string st prefix asn v.length
                (families v.prefix prefix e) h)
      ]
    ]
  ]

  process_loop-IsSummed :
      (st : Processed) (vs : List VrpJson)
      → IsSummed st
      → IsSummed (process_loop ipnet_string parse_cidr uint32_of_float st vs)
  unfolding process_loop
  process_loop-IsSummed st [] h = h
  process_loop-IsSummed st (v ∷ vs) h =
      process_loop-IsSummed (process_one ipnet_string parse_cidr uint32_of_float st v) vs
        (process_one-IsSummed st v h)

  -- Where each prefix that net.ParseCIDR returns has an address of a family, the gauge of the VRPs
  -- counts in its two filtered numbers each VRP that the server is given once, and neither filtered
  -- number is above the unfiltered one of its family.
  number_of_vrps-process_data :
      (vs : List VrpJson)
      → let n = number_of_vrps ipnet_string parse_cidr uint32_of_float vs in
        (n.ipv4_filtered + n.ipv6_filtered
          ≡ length (process_data ipnet_string parse_cidr uint32_of_float vs).0)
        × (n.ipv4_filtered ≤ n.ipv4_unfiltered)
        × (n.ipv6_filtered ≤ n.ipv6_unfiltered)
  unfolding number_of_vrps update_metrics process_data
  number_of_vrps-process_data vs =
      let st = process_loop ipnet_string parse_cidr uint32_of_float nothing_processed vs in
      let start : IsSummed nothing_processed = record {
        le4 = omega arith;
        le6 = omega arith;
        each = omega arith;
      } in
      let h = process_loop-IsSummed nothing_processed vs start in
      let sums = count_dup-sums st.vrplist 0 0 in
      let sum4 = ap (λ p. p.0) sums in
      let sum6 = ap (λ p. p.1) sums in
      (omega (arith, sum4, sum6, h.each), omega (arith, sum4, h.le4), omega (arith, sum6, h.le6))
