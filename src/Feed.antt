-- ===== src/Feed.antt =====
-- cmd/stayrtr/stayrtr.go: the VRPs of the JSON file are checked, converted and freed of duplicates.
pub mod Process
pub mod State
pub mod Updated
pub mod Refresh
pub mod Turns
pub mod Latest
pub mod Keeps
pub mod Fed
pub mod SameClients
pub mod Quiet
pub mod Exported
pub mod Metrics
use stayrtr.Prelude.{
  ℕ, zero, suc, ◌+◌, ◌%◌, Bool, true, false, not, ◌&&◌, ◌||◌, Option, none, some, List, [], ◌∷◌,
  ◌++◌, Text, codes, decimal, u8, ltb, ◌==◌, if◌then◌else◌, GoMap, text_keys, lookup, insert,
}
use stayrtr.Net.{IpNet, to4, mask_size, mask_bits}
use stayrtr.Vrp.{Vrp}
use stayrtr.Prefixfile.{VrpJson, get_asn2, get_prefix2}

unfoldable pub is_valid_prefix_length : IpNet → ℕ → Bool
is_valid_prefix_length prefix max_length =
    let plen = mask_size prefix.mask in
    let max = mask_bits prefix.mask in
    if (plen == 0) || (ltb max_length (u8 plen) || ltb (u8 max) max_length) then false else true

-- The variables of processData.
pub record Processed : Type 0 where
  pub filter_duplicates : GoMap Text Bool
  pub vrplist : List Vrp
  pub countv4 : ℕ
  pub countv6 : ℕ

abbrev pub nothing_processed : Processed
nothing_processed = record { filter_duplicates = []; vrplist = []; countv4 = 0; countv6 = 0 }

unfoldable pub count_family : Processed → IpNet → Processed
count_family st prefix = elim (to4 prefix.ip) [
  | some _ ↦ record st { countv4 = st.countv4 + 1 }
  | none ↦ record st { countv6 = st.countv6 + 1 }
]

module _ (ipnet_string : IpNet → Text) where
  unfoldable pub process_key : IpNet → ℕ → ℕ → Text
  process_key prefix asn length =
      ipnet_string prefix ++ (codes "," ++ (decimal asn ++ (codes "," ++ decimal length)))

  unfoldable pub add_unless_duplicate : Processed → IpNet → ℕ → ℕ → Processed
  add_unless_duplicate st prefix asn length =
      let key = process_key prefix asn length in
      elim (lookup key st.filter_duplicates) [
        | some _ ↦ st
        | none ↦ record st {
          filter_duplicates = insert key true st.filter_duplicates;
          vrplist =
              st.vrplist
              ++ (record { prefix = prefix; max_len = length; asn = asn; flags = 0 } ∷ []);
        }
      ]

module _ (ipnet_string : IpNet → Text) (parse_cidr : Text → Option IpNet)
    (uint32_of_float : ℕ → ℕ) where
  -- one turn of the loop of processData
  unfoldable pub process_one : Processed → VrpJson → Processed
  unfolding count_family add_unless_duplicate
  process_one st v = elim (get_prefix2 parse_cidr uint32_of_float v) [
    | none ↦ st
    | some prefix ↦ elim (get_asn2 parse_cidr uint32_of_float v) [
      | none ↦ st
      | some asn ↦
          if not (is_valid_prefix_length prefix v.length)
          then st
          else add_unless_duplicate ipnet_string (count_family st prefix) prefix asn v.length
    ]
  ]

  unfoldable pub process_loop : Processed → List VrpJson → Processed
  process_loop st [] = st
  process_loop st (v ∷ vrplistjson) = process_loop (process_one st v) vrplistjson

  -- The VRPs, and the numbers of all, of the IPv4 and of the IPv6 entries.
  unfoldable pub process_data : List VrpJson → List Vrp × ℕ × ℕ × ℕ
  process_data vrplistjson =
      let st = process_loop nothing_processed vrplistjson in
      (st.vrplist, st.countv4 + st.countv6, st.countv4, st.countv6)
