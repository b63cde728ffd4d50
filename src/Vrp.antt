-- ===== src/Vrp.antt =====
-- The struct VRP of lib/server.go, its methods, and ConvertVRPListToMap.
pub mod Last
pub mod Key
use stayrtr.Prelude.{
  ℕ, Bool, ◌&&◌, List, [], ◌∷◌, ◌++◌, Text, codes, decimal, text_eq, ◌==◌, GoMap, text_keys, insert,
  lookup,
}
use stayrtr.Net.{IpNet}

pub record Vrp : Type 0 where
  pub prefix : IpNet
  pub max_len : ℕ
  pub asn : ℕ
  pub flags : ℕ

unfoldable pub equals : Vrp → Vrp → Bool
equals r1 r2 =
    r1.max_len == r2.max_len
    && (r1.asn == r2.asn
        && (text_eq r1.prefix.ip r2.prefix.ip && text_eq r1.prefix.mask r2.prefix.mask))

-- The fresh slices hold the same bytes.
abbrev pub copy : Vrp → Vrp
copy r1 = record {
  prefix = record { ip = r1.prefix.ip; mask = r1.prefix.mask };
  max_len = r1.max_len;
  asn = r1.asn;
  flags = r1.flags;
}

-- `ipnet_string` is the method String of net.IPNet.
module _ (ipnet_string : IpNet → Text) where
  unfoldable pub hash_key : Vrp → Text
  hash_key vrp =
      ipnet_string vrp.prefix
      ++ (codes "-" ++ (decimal vrp.max_len ++ (codes "-" ++ decimal vrp.asn)))

  -- the loop of ConvertVRPListToMap
  unfoldable pub convert_loop : GoMap Text Vrp → List Vrp → GoMap Text Vrp
  convert_loop m [] = m
  convert_loop m (v ∷ vrps) = convert_loop (insert (hash_key v) v m) vrps

  unfoldable pub convert_vrp_list_to_map : List Vrp → GoMap Text Vrp
  unfolding convert_loop
  convert_vrp_list_to_map vrps = convert_loop [] vrps
