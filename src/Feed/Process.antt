-- ===== src/Feed/Process.antt =====
-- What processData keeps (cmd/stayrtr/stayrtr.go).
use stayrtr.Prelude.{
  ℕ, ◌+◌, ◌≡◌, refl, arith, Bool, true, false, ◌||◌, Option, none, some, List, [], ◌∷◌, ◌++◌, Text,
  text_eq, text_eq_iff, if◌then◌else◌, text_keys, lookup, lookup-insert, Bool-cases, Option-cases,
  inl, inr, ◌&&◌, ltb, leb, ◌∙◌, sym, u8, codes, decimal,
}
use stayrtr.Net.{IpNet, to4, mask_size, mask_bits}
use stayrtr.Vrp.{Vrp}
use stayrtr.Prefixfile.{VrpJson, get_asn2, get_prefix2}
use stayrtr.Feed.{
  is_valid_prefix_length, Processed, nothing_processed, process_key, count_family,
  add_unless_duplicate, process_one, process_loop, process_data,
}

abbrev if_some : Option Bool → ℕ
if_some none = 0
if_some (some _) = 1

module _ (ipnet_string : IpNet → Text) (parse_cidr : Text → Option IpNet)
    (uint32_of_float : ℕ → ℕ) where
  -- The VRP that an entry stands for; `none` for one whose prefix or ASN cannot be read, whose prefix
  -- has the length 0, or whose maximum length is below that of the prefix or above that of an address.
  abbrev pub converted : VrpJson → Option Vrp
  converted v = elim (get_prefix2 parse_cidr uint32_of_float v) [
    | none ↦ none
    | some prefix ↦ elim (get_asn2 parse_cidr uint32_of_float v) [
      | none ↦ none
      | some asn ↦
          if ltb 0 (mask_size prefix.mask)
            && (leb (u8 (mask_size prefix.mask)) v.length
                && leb v.length (u8 (mask_bits prefix.mask)))
          then some (record { prefix = prefix; max_len = v.length; asn = asn; flags = 0 })
          else none
    ]
  ]

  -- The prefix, the ASN and the maximum length of a VRP, with commas between.
  abbrev pub key_of : Vrp → Text
  key_of v =
      ipnet_string v.prefix ++ (codes "," ++ (decimal v.asn ++ (codes "," ++ decimal v.max_len)))

  -- how many VRPs of a list have a key
  abbrev pub key_count : Text → List Vrp → ℕ
  key_count k [] = 0
  key_count k (v ∷ l) = (if text_eq (key_of v) k then 1 else 0) + key_count k l

  abbrev pub has_key : Text → Option Vrp → Bool
  has_key k none = false
  has_key k (some v) = text_eq (key_of v) k

  -- Does an entry of the file stand for a VRP with the key?
  abbrev pub is_present : Text → List VrpJson → Bool
  is_present k [] = false
  is_present k (v ∷ vs) = has_key k (converted v) || is_present k vs

  key_count-append :
      (k : Text) (xs ys : List Vrp) → key_count k (xs ++ ys) ≡ key_count k xs + key_count k ys
  key_count-append k [] ys = omega arith
  key_count-append k (x ∷ xs) ys = omega (arith, key_count-append k xs ys)

  -- The map has the keys of the list, each of which is there once.
  abbrev Deduped : Text → Processed → Type 0
  Deduped k st = key_count k st.vrplist ≡ if_some (lookup k st.filter_duplicates)

  count_family-same :
      (st : Processed) (prefix : IpNet)
      → (count_family st prefix).vrplist ≡ st.vrplist
        × (count_family st prefix).filter_duplicates ≡ st.filter_duplicates
  unfolding count_family
  count_family-same st prefix = elim (Option-cases (to4 prefix.ip)) [
    | inl e ↦ rw (e, count_family) (refl, refl)
    | inr (x, e) ↦ rw (e, count_family) (refl, refl)
  ]

  abbrev IsStep : Text → Option Vrp → Processed → Processed → Type 0
  IsStep k v st st' =
      Deduped k st'
      × (key_count k st'.vrplist ≡ (if has_key k v then 1 else key_count k st.vrplist))

  process_key_lem : (v : Vrp) → process_key ipnet_string v.prefix v.asn v.max_len ≡ key_of v
  unfolding process_key
  process_key_lem v = refl

  is_valid_prefix_length_lem :
      (prefix : IpNet) (max_length : ℕ)
      → is_valid_prefix_length prefix max_length ≡ (
          ltb 0 (mask_size prefix.mask)
          && (leb (u8 (mask_size prefix.mask)) max_length
              && leb max_length (u8 (mask_bits prefix.mask))))
  unfolding is_valid_prefix_length
  is_valid_prefix_length_lem prefix max_length = ground arith

  add_unless_duplicate-IsStep :
      (k : Text) (st : Processed) (prefix : IpNet) (asn max_len : ℕ)
      → Deduped k st
      → IsStep k
          (some (record { prefix = prefix; max_len = max_len; asn = asn; flags = 0 }))
          st
          (add_unless_duplicate ipnet_string st prefix asn max_len)
  unfolding add_unless_duplicate process_key
  add_unless_duplicate-IsStep k st prefix asn max_len h =
      let key = process_key ipnet_string prefix asn max_len in
      let v : Vrp = record { prefix = prefix; max_len = max_len; asn = asn; flags = 0 } in
      elim (Option-cases (lookup key st.filter_duplicates)) [
        | inl e ↦
            rw (e, add_unless_duplicate)
              (ground (
                arith,
                e,
                text_eq_iff key k,
                key_count-append k st.vrplist (v ∷ []),
                lookup-insert key k true st.filter_duplicates,
              ))
        | inr (b, e) ↦ rw (e, add_unless_duplicate) (h, ground (arith, e, text_eq_iff key k))
      ]

  abbrev step : Processed → VrpJson → Processed
  step st v = process_one ipnet_string parse_cidr uint32_of_float st v

  process_one-IsStep :
      (k : Text) (st : Processed) (v : VrpJson)
      → Deduped k st
      → IsStep k (converted v) st (step st v)
  unfolding process_one
  process_one-IsStep k st v h = elim (Option-cases (get_prefix2 parse_cidr uint32_of_float v)) [
    | inl e ↦ rw (e, converted, process_one) (h, refl)
    | inr (prefix, e) ↦ elim (Option-cases (get_asn2 parse_cidr uint32_of_float v)) [
      | inl e2 ↦ rw (e, e2, converted, process_one) (h, refl)
      | inr (asn, e2) ↦ elim (Bool-cases (is_valid_prefix_length prefix v.length)) [
        | inr e3 ↦
            let bad = sym (is_valid_prefix_length_lem prefix v.length) ∙ e3 in
            rw (e, e2, e3, bad, converted, process_one) (h, refl)
        | inl e3 ↦
            let (same, seen) = count_family-same st prefix in
            let counted = count_family st prefix in
            let good = sym (is_valid_prefix_length_lem prefix v.length) ∙ e3 in
            rw (e, e2, e3, good, converted, process_one)
              (rw same at
                (add_unless_duplicate-IsStep k counted prefix asn v.length (rw (same, seen) h)))
      ]
    ]
  ]

  process_loop-key_count :
      (k : Text) (st : Processed) (vs : List VrpJson)
      → Deduped k st
      → key_count k (process_loop ipnet_string parse_cidr uint32_of_float st vs).vrplist
        ≡ (if is_present k vs then 1 else key_count k st.vrplist)
  unfolding process_loop
  process_loop-key_count k st [] h = refl
  process_loop-key_count k st (v ∷ vs) h =
      let (deduped, count) = process_one-IsStep k st v h in
      ground (arith, count, process_loop-key_count k (step st v) vs deduped)

  -- For each key: the list that processData makes has one VRP with the key if some entry of the file
  -- stands for one, and else none. An entry stands for none if its prefix or its ASN cannot be read, if
  -- its prefix has the length 0, or if its maximum length is below that of the prefix or above that of
  -- an address.
  pub process_data-key_count :
      (k : Text) (vs : List VrpJson)
      → key_count k (process_data ipnet_string parse_cidr uint32_of_float vs).0
        ≡ (if is_present k vs then 1 else 0)
  unfolding process_data lookup
  process_data-key_count k vs = process_loop-key_count k nothing_processed vs refl
