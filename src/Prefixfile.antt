-- ===== src/Prefixfile.antt =====
-- prefixfile/prefixfile.go: the VRPs of the JSON file that is read and exported.
pub mod Slurm
pub mod Filtering
pub mod Matching
use stayrtr.Prelude.{
  ℕ, zero, suc, ◌+◌, ◌-◌, ◌*◌, ◌%◌, Bool, true, false, ◌&&◌, ◌||◌, Option, none, some, List, [],
  ◌∷◌, Text, ltb, leb, ◌==◌, if◌then◌else◌, u32,
}
use stayrtr.Prelude.Int.{ℤ, pos, negsuc}
use stayrtr.Prelude.Bits.{not8, or8}
use stayrtr.Net.{IpNet}

-- The values of `interface{}` that the program tells apart. A float64 is known by its bits, and a
-- `json.Number` by its text.
pub data AnyValue : Type 0 where
  nil : AnyValue
  string : Text → AnyValue
  uint32 : ℕ → AnyValue
  float64 : ℕ → AnyValue
  int : ℤ → AnyValue
  json_number : Text → AnyValue
  other : AnyValue

pub record VrpJson : Type 0 where
  pub prefix : Text
  pub length : ℕ
  pub asn : AnyValue
  pub ta : Text
  pub expires : ℤ

pub record MetaData : Type 0 where
  pub counts : ℕ
  pub buildtime : Text

-- `none` is the nil slice.
pub record VrpList : Type 0 where
  pub metadata : MetaData
  pub data_of : Option (List VrpJson)

-- uint32(n) for an int n
unfoldable pub uint32_of_int : ℤ → ℕ
uint32_of_int (pos n) = u32 n
uint32_of_int (negsuc n) = 4294967295 - n % 4294967296

-- strings.TrimLeft(s, "aAsS")
unfoldable pub trim_left : Text → Text
trim_left [] = []
trim_left (c ∷ s) =
    let rest = trim_left s in
    if (c == 97) || ((c == 65) || ((c == 115) || (c == 83))) then rest else c ∷ s

digits : ℕ → Text → Option ℕ
digits n [] = some n
digits n (c ∷ s) =
    let rest = digits (n * 10 + (c - 48)) s in if leb 48 c && leb c 57 then rest else none

-- strconv.ParseUint(s, 10, 32); `none` is an error.
unfoldable pub parse_uint32 : Text → Option ℕ
unfolding digits
parse_uint32 [] = none
parse_uint32 (c ∷ s) = elim (digits 0 (c ∷ s)) [
  | none ↦ none
  | some n ↦ if ltb n 4294967296 then some n else none
]

-- `parse_cidr` is net.ParseCIDR without its address, `none` for an error, and
-- `uint32_of_float` is Go's conversion of a float64 to a uint32.
module _ (parse_cidr : Text → Option IpNet) (uint32_of_float : ℕ → ℕ) where
  -- GetASN2; `none` is an error.
  unfoldable pub get_asn2 : VrpJson → Option ℕ
  get_asn2 vrp = elim (vrp.asn) [
    | string asnc ↦ parse_uint32 (trim_left asnc)
    | uint32 asnc ↦ some asnc
    | float64 asnc ↦ some (uint32_of_float asnc)
    | int asnc ↦ some (uint32_of_int asnc)
    | _ ↦ none
  ]

  unfoldable pub get_asn : VrpJson → ℕ
  get_asn vrp = elim (get_asn2 vrp) [ none ↦ 0 | some asn ↦ asn ]

  -- GetPrefix2 and GetPrefix; `none` is an error, and nil.
  unfoldable pub get_prefix2 : VrpJson → Option IpNet
  get_prefix2 vrp = parse_cidr vrp.prefix

unfoldable pub broadcast : List ℕ → List ℕ → List ℕ
broadcast (i ∷ ip) (m ∷ mask) = or8 i (not8 m) ∷ broadcast ip mask
broadcast _ _ = []

-- GetIPBroadcast, for a mask that is as long as the address, as net.ParseCIDR gives them.
unfoldable pub get_ip_broadcast : IpNet → List ℕ
unfolding broadcast
get_ip_broadcast ipnet = broadcast ipnet.ip ipnet.mask
