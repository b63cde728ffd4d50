-- ===== src/Feed/Metrics.antt =====
-- cmd/stayrtr/stayrtr.go: the numbers of VRPs that updateFromNewState hands to UpdateMetrics.
pub mod Sums
use stayrtr.Prelude.{ℕ, ◌+◌, Option, none, some, List, [], ◌∷◌, Text}
use stayrtr.Net.{IpNet, to4, to16}
use stayrtr.Vrp.{Vrp}
use stayrtr.Prefixfile.{VrpJson}
use stayrtr.Feed.{process_data}

-- The gauge NumberOfVRPs of one file, by its labels.
pub record NumberOfVrps : Type 0 where
  pub ipv4_filtered : ℕ
  pub ipv4_unfiltered : ℕ
  pub ipv6_filtered : ℕ
  pub ipv6_unfiltered : ℕ

-- UpdateMetrics, without the time of the last change
unfoldable pub update_metrics : ℕ → ℕ → ℕ → ℕ → NumberOfVrps
update_metrics num_ipv4 num_ipv6 num_ipv4_filtered num_ipv6_filtered = record {
  ipv4_filtered = num_ipv4_filtered;
  ipv4_unfiltered = num_ipv4;
  ipv6_filtered = num_ipv6_filtered;
  ipv6_unfiltered = num_ipv6;
}

-- the loop over the VRPs without duplicates, from the counts so far
unfoldable pub count_dup : ℕ → ℕ → List Vrp → ℕ × ℕ
count_dup countv4_dup countv6_dup [] = (countv4_dup, countv6_dup)
count_dup countv4_dup countv6_dup (vrp ∷ vrps) = elim (to4 vrp.prefix.ip) [
  | some _ ↦ count_dup (countv4_dup + 1) countv6_dup vrps
  | none ↦ elim (to16 vrp.prefix.ip) [
    | some _ ↦ count_dup countv4_dup (countv6_dup + 1) vrps
    | none ↦ count_dup countv4_dup countv6_dup vrps
  ]
]

module _ (ipnet_string : IpNet → Text) (parse_cidr : Text → Option IpNet)
    (uint32_of_float : ℕ → ℕ) where
  -- the gauge after an update with these entries
  unfoldable pub number_of_vrps : List VrpJson → NumberOfVrps
  number_of_vrps vrpsjson =
      let (vrps, count, countv4, countv6) =
        process_data ipnet_string parse_cidr uint32_of_float vrpsjson in
      let (countv4_dup, countv6_dup) = count_dup 0 0 vrps in
      update_metrics countv4 countv6 countv4_dup countv6_dup
