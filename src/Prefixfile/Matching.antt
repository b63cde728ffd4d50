-- ===== src/Prefixfile/Matching.antt =====
-- Which VRPs the filters of local exceptions take out (prefixfile/slurm.go, FilterOnVRPs).
use stayrtr.Prelude.{
  ℕ, ap, ◌≡◌, ◌↔◌, ◌⊎◌, ◌||◌, refl, arith, Bool, true, false, Option, none, some, List, [], ◌∷◌,
  Text, ◌==◌, All, Bool-cases, inl, inr,
}
use stayrtr.Prelude.Bits.{or8, not8}
use stayrtr.Prelude.Int.{ℤ}
use stayrtr.Net.{IpNet, to16}
use stayrtr.Prefixfile.{
  AnyValue, nil, string, uint32, float64, int, json_number, other, VrpJson, uint32_of_int, get_asn,
  get_prefix2, broadcast, get_ip_broadcast,
}
use stayrtr.Prefixfile.Slurm.{
  SlurmPrefixFilter, SlurmConfig, contains, filter_asn, covers, matches, was_removed,
  filter_on_vrps,
}
use stayrtr.Prefixfile.Filtering.{Interleaved, filter_on_vrps-IsParted}

-- The last address of a prefix: the bits that the mask does not have are set.
abbrev pub last_address : List ℕ → List ℕ → List ℕ
last_address (i ∷ ip) (m ∷ mask) = or8 i (not8 m) ∷ last_address ip mask
last_address _ _ = []

broadcast_lem : (ip mask : List ℕ) → broadcast ip mask ≡ last_address ip mask
unfolding broadcast
broadcast_lem [] mask = refl
broadcast_lem (i ∷ ip) [] = refl
broadcast_lem (i ∷ ip) (m ∷ mask) = ap (λ l. or8 i (not8 m) ∷ l) (broadcast_lem ip mask)

get_ip_broadcast_lem :
    (prefix : IpNet) → get_ip_broadcast prefix ≡ last_address prefix.ip prefix.mask
unfolding get_ip_broadcast
get_ip_broadcast_lem prefix = broadcast_lem prefix.ip prefix.mask

-- Are the first and the last address of the second prefix in the first? A prefix that does not parse
-- is no condition.
abbrev pub IsInside : Option IpNet → Option IpNet → Type 0
IsInside (some outer) (some prefix) =
    (contains outer (to16 prefix.ip) ≡ true)
    × (contains outer (to16 (last_address prefix.ip prefix.mask)) ≡ true)
IsInside _ _ = Unit

module _ (parse_cidr : Text → Option IpNet) (uint32_of_float : ℕ → ℕ)
    (number_int64 : Text → ℤ) where
  -- Is the ASN the one of the filter? A filter without a number for it has no condition on it.
  abbrev pub HasAsn : AnyValue → ℕ → Type 0
  HasAsn (json_number n) asn = asn ≡ uint32_of_int (number_int64 n)
  HasAsn (int n) asn = asn ≡ uint32_of_int n
  HasAsn (uint32 n) asn = asn ≡ n
  HasAsn _ asn = Unit

  abbrev pub Takes : SlurmPrefixFilter → VrpJson → Type 0
  Takes filter vrp =
      IsInside (parse_cidr filter.prefix) (get_prefix2 parse_cidr uint32_of_float vrp)
      × HasAsn filter.asn (get_asn parse_cidr uint32_of_float vrp)

  -- One of the filters matches the VRP.
  abbrev pub IsMatched : List SlurmPrefixFilter → VrpJson → Type 0
  IsMatched [] vrp = ⊥
  IsMatched (filter ∷ filters) vrp = Takes filter vrp ⊎ IsMatched filters vrp

  -- The lists added and removed are the given one taken apart: in its order, each VRP once, those
  -- that a filter matches in the second.
  abbrev pub IsSplit : SlurmConfig → List VrpJson → List VrpJson × List VrpJson → Type 0
  IsSplit s vrps (added, removed) =
      Interleaved added removed vrps
      × All (λ vrp. ¬ IsMatched s.prefix_filters vrp) added
      × All (IsMatched s.prefix_filters) removed

  abbrev test : SlurmPrefixFilter → VrpJson → Bool
  test filter vrp = matches parse_cidr uint32_of_float number_int64 filter vrp

  covers-IsInside :
      (outer prefix : Option IpNet)
      → (covers parse_cidr uint32_of_float number_int64 outer prefix ≡ true) ↔ IsInside outer prefix
  unfolding covers
  covers-IsInside (some outer) (some prefix) = rw (get_ip_broadcast_lem prefix) (ground arith)
  covers-IsInside (some outer) none = ((λ e. tt), λ u. refl)
  covers-IsInside none prefix = ((λ e. tt), λ u. refl)

  abbrev asn_test : SlurmPrefixFilter → ℕ → Bool
  asn_test filter asn =
      (filter_asn parse_cidr uint32_of_float number_int64 filter).1
      || (asn == (filter_asn parse_cidr uint32_of_float number_int64 filter).0)

  asn_test-HasAsn :
      (prefix comment : Text) (a : AnyValue) (asn : ℕ)
      → (asn_test (record { prefix = prefix; asn = a; comment = comment }) asn ≡ true)
        ↔ HasAsn a asn
  unfolding filter_asn
  asn_test-HasAsn prefix comment (json_number n) asn = ground arith
  asn_test-HasAsn prefix comment (int n) asn = ground arith
  asn_test-HasAsn prefix comment (uint32 n) asn = ground arith
  asn_test-HasAsn prefix comment nil asn = ((λ e. tt), λ u. refl)
  asn_test-HasAsn prefix comment (string t) asn = ((λ e. tt), λ u. refl)
  asn_test-HasAsn prefix comment (float64 n) asn = ((λ e. tt), λ u. refl)
  asn_test-HasAsn prefix comment other asn = ((λ e. tt), λ u. refl)

  matches-Takes :
      (filter : SlurmPrefixFilter) (vrp : VrpJson) → (test filter vrp ≡ true) ↔ Takes filter vrp
  unfolding matches
  matches-Takes filter vrp =
      let inside =
        covers-IsInside (parse_cidr filter.prefix) (get_prefix2 parse_cidr uint32_of_float vrp) in
      let asn =
        asn_test-HasAsn filter.prefix filter.comment filter.asn
          (get_asn parse_cidr uint32_of_float vrp) in
      ground (arith, inside, asn)

  was_removed-IsMatched :
      (filters : List SlurmPrefixFilter) (vrp : VrpJson)
      → (was_removed parse_cidr uint32_of_float number_int64 filters vrp ≡ true)
        ↔ IsMatched filters vrp
  unfolding was_removed
  was_removed-IsMatched [] vrp = ((λ e. absurd (ground arith)), λ m. absurd m)
  was_removed-IsMatched (filter ∷ filters) vrp =
      let (to, from) = was_removed-IsMatched filters vrp in
      let (to_one, from_one) = matches-Takes filter vrp in
      elim (Bool-cases (test filter vrp)) [
        | inl e ↦ rw (e, was_removed) ((λ x. inl (to_one e)), λ m. refl)
        | inr e ↦
            rw (e, was_removed)
              (
                (λ x. inr (to x)),
                λ m. elim m [
                  | inl one ↦ absurd (let t = from_one one in cc)
                  | inr more ↦ from more
                ],
              )
      ]

  All-IsMatched :
      (filters : List SlurmPrefixFilter) (vrps : List VrpJson)
      → All (λ vrp. was_removed parse_cidr uint32_of_float number_int64 filters vrp ≡ true) vrps
      → All (IsMatched filters) vrps
  All-IsMatched filters [] h = tt
  All-IsMatched filters (vrp ∷ vrps) (h, hs) =
      ((was_removed-IsMatched filters vrp).0 h, All-IsMatched filters vrps hs)

  All-not-IsMatched :
      (filters : List SlurmPrefixFilter) (vrps : List VrpJson)
      → All (λ vrp. was_removed parse_cidr uint32_of_float number_int64 filters vrp ≡ false) vrps
      → All (λ vrp. ¬ IsMatched filters vrp) vrps
  All-not-IsMatched filters [] h = tt
  All-not-IsMatched filters (vrp ∷ vrps) (h, hs) = (
    (λ m. let t = (was_removed-IsMatched filters vrp).1 m in absurd (cc)),
    All-not-IsMatched filters vrps hs,
  )

  -- FilterOnVRPs takes the list apart: the first result has the VRPs that no filter matches, the second
  -- those that one matches, each VRP in one of them as often as it was there, and both in the old order.
  -- A filter matches where its prefix has the first and the last address of the VRP's prefix, if both
  -- parse, and its ASN is the VRP's, if it is a number.
  pub filter_on_vrps-IsSplit :
      (s : SlurmConfig) (vrps : List VrpJson)
      → IsSplit s vrps (filter_on_vrps parse_cidr uint32_of_float number_int64 s vrps)
  filter_on_vrps-IsSplit s vrps =
      let (order, kept, filtered) =
        filter_on_vrps-IsParted parse_cidr uint32_of_float number_int64 s vrps in
      (order, All-not-IsMatched s.prefix_filters _ kept, All-IsMatched s.prefix_filters _ filtered)
