-- ===== src/Prefixfile/Slurm.antt =====
-- prefixfile/slurm.go: local exceptions, which filter VRPs out and add others.
use stayrtr.Prelude.{
  ℕ, ◌%◌, Bool, true, false, ◌&&◌, ◌||◌, Option, none, some, List, [], ◌∷◌, ◌++◌, Text, drop,
  length, leb, ◌==◌, if◌then◌else◌,
}
use stayrtr.Prelude.Bits.{and8}
use stayrtr.Prelude.Int.{ℤ, pos, negsuc}
use stayrtr.Net.{IpNet, to4, to16, mask_size}
use stayrtr.Prefixfile.{
  AnyValue, uint32, int, json_number, VrpJson, uint32_of_int, get_asn, get_prefix2,
  get_ip_broadcast,
}

pub record SlurmPrefixFilter : Type 0 where
  pub prefix : Text
  pub asn : AnyValue
  pub comment : Text

pub record SlurmPrefixAssertion : Type 0 where
  pub prefix : Text
  pub asn : ℕ
  pub max_prefix_length : ℤ
  pub comment : Text

-- SlurmConfig with its two lists; nil slices and empty ones behave alike.
pub record SlurmConfig : Type 0 where
  pub slurm_version : ℤ
  pub prefix_filters : List SlurmPrefixFilter
  pub prefix_assertions : List SlurmPrefixAssertion

-- the address and the mask that IPNet.Contains compares with, of one length
network_number : IpNet → Option (List ℕ × List ℕ)
network_number n =
    let mask_len = length n.mask in
    elim (to4 n.ip) [
      | some ip ↦
          if mask_len == 4
          then some (ip, n.mask)
          else if mask_len == 16
          then some (ip, drop 12 n.mask)
          else none
      | none ↦ if (length n.ip == 16) && (mask_len == 16) then some (n.ip, n.mask) else none
    ]

-- the loop of IPNet.Contains
same_under : List ℕ → List ℕ → List ℕ → Bool
same_under (x ∷ nn) (m ∷ mask) (i ∷ ip) =
    let rest = same_under nn mask ip in (and8 x m == and8 i m) && rest
same_under _ _ _ = true

-- IPNet.Contains; `none` is the nil address.
unfoldable pub contains : IpNet → Option (List ℕ) → Bool
unfolding network_number same_under
contains n none = false
contains n (some address) =
    let ip : List ℕ = elim (to4 address) [ none ↦ address | some x ↦ x ] in
    elim (network_number n) [
      | none ↦ false
      | some (nn, mask) ↦ (length ip == length nn) && same_under nn mask ip
    ]

-- `number_int64` is what the method Int64 of json.Number gives besides its error.
module _ (parse_cidr : Text → Option IpNet) (uint32_of_float : ℕ → ℕ)
    (number_int64 : Text → ℤ) where
  -- GetASN of a filter, and whether it is empty
  unfoldable pub filter_asn : SlurmPrefixFilter → ℕ × Bool
  filter_asn pf = elim (pf.asn) [
    | json_number asn ↦ (uint32_of_int (number_int64 asn), false)
    | int asn ↦ (uint32_of_int asn, false)
    | uint32 asn ↦ (asn, false)
    | _ ↦ (0, true)
  ]

  -- the test of a filter's prefix: a prefix that does not parse is no condition
  unfoldable pub covers : Option IpNet → Option IpNet → Bool
  covers (some f_prefix) (some r_prefix) =
      contains f_prefix (to16 r_prefix.ip) && contains f_prefix (to16 (get_ip_broadcast r_prefix))
  covers _ _ = true

  -- does a filter match a VRP?
  unfoldable pub matches : SlurmPrefixFilter → VrpJson → Bool
  unfolding covers
  matches filter vrp =
      let (f_asn, f_asn_empty) = filter_asn filter in
      covers (parse_cidr filter.prefix) (get_prefix2 parse_cidr uint32_of_float vrp)
      && (f_asn_empty || (get_asn parse_cidr uint32_of_float vrp == f_asn))

  -- the loop over the filters, which ends at the first that matches
  unfoldable pub was_removed : List SlurmPrefixFilter → VrpJson → Bool
  was_removed [] vrp = false
  was_removed (filter ∷ filters) vrp =
      let rest = was_removed filters vrp in if matches filter vrp then true else rest

  unfoldable pub filter_loop : List SlurmPrefixFilter → List VrpJson → List VrpJson × List VrpJson
  filter_loop filters [] = ([], [])
  filter_loop filters (vrp ∷ vrps) =
      let (added, removed) = filter_loop filters vrps in
      if was_removed filters vrp then (added, vrp ∷ removed) else (vrp ∷ added, removed)

  -- The lists added and removed.
  unfoldable pub filter_on_vrps : SlurmConfig → List VrpJson → List VrpJson × List VrpJson
  filter_on_vrps s vrps =
      if length s.prefix_filters == 0 then (vrps, []) else filter_loop s.prefix_filters vrps

  -- the length of an asserted VRP, before it is cut down to a byte
  unfoldable pub asserted_length : ℤ → ℕ → ℤ
  asserted_length (pos n) size = if leb n size then pos size else pos n
  asserted_length (negsuc n) size = pos size

  unfoldable pub assert_one : SlurmPrefixAssertion → IpNet → VrpJson
  assert_one assertion prefix = record {
    asn = uint32 assertion.asn;
    prefix = assertion.prefix;
    length =
        uint32_of_int (asserted_length assertion.max_prefix_length (mask_size prefix.mask)) % 256;
    ta = assertion.comment;
    expires = pos 0;
  }

  unfoldable pub assert_loop : List SlurmPrefixAssertion → List VrpJson
  assert_loop [] = []
  assert_loop (assertion ∷ assertions) =
      let rest = assert_loop assertions in
      elim (parse_cidr assertion.prefix) [
        | none ↦ rest
        | some prefix ↦ assert_one assertion prefix ∷ rest
      ]

  unfoldable pub assert_vrps : SlurmConfig → List VrpJson
  assert_vrps s = assert_loop s.prefix_assertions

  unfoldable pub filter_assert : SlurmConfig → List VrpJson → List VrpJson
  filter_assert s vrps = let (a, _) = filter_on_vrps s vrps in a ++ assert_vrps s
