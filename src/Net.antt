-- ===== src/Net.antt =====
-- The types of Go's package net that the program uses: net.IP, net.IPMask and net.IPNet, as lists
-- of bytes, with the functions of theirs that the program calls.
pub mod Masks
pub mod Addresses
use stayrtr.Prelude.{
  ℕ, zero, suc, ◌+◌, ◌-◌, ◌*◌, ◌/◌, ◌%◌, ◌^◌, Bool, true, ◌&&◌, ◌||◌, Option, none, some, List, [],
  ◌∷◌, length, take, drop, replicate, leb, ◌==◌, if◌then◌else◌, ◌++◌, text_eq,
}

-- net.IPNet
pub record IpNet : Type 0 where
  pub ip : List ℕ
  pub mask : List ℕ

abbrev pub v4_in_v6_prefix : List ℕ
v4_in_v6_prefix = replicate 10 0 ++ (255 ∷ 255 ∷ [])

-- IP.To4; `none` is Go's nil.
unfoldable pub to4 : List ℕ → Option (List ℕ)
to4 ip =
    if length ip == 4
    then some ip
    else if (length ip == 16) && text_eq (take 12 ip) v4_in_v6_prefix
    then some (drop 12 ip)
    else none

-- IP.To16
unfoldable pub to16 : List ℕ → Option (List ℕ)
to16 ip =
    if length ip == 4
    then some (v4_in_v6_prefix ++ ip)
    else if length ip == 16
    then some ip
    else none

-- The bytes that are written for an IP that may be nil.
abbrev pub ip_bytes : Option (List ℕ) → List ℕ
ip_bytes none = []
ip_bytes (some ip) = ip

-- the loop of CIDRMask: `l` bytes are still to be made, `n` ones are left
cidr_bytes : ℕ → ℕ → List ℕ
cidr_bytes zero n = []
cidr_bytes (suc l) n =
    let full = 255 ∷ cidr_bytes l (n - 8) in
    let partial = (255 - 255 / 2 ^ n) ∷ cidr_bytes l 0 in if leb 8 n then full else partial

-- CIDRMask, for a number of ones that is not negative; `[]` is Go's nil.
unfoldable pub cidr_mask : ℕ → ℕ → List ℕ
unfolding cidr_bytes
cidr_mask ones bits =
    if (bits == 32) || (bits == 128)
    then (if leb ones bits then cidr_bytes (bits / 8) ones else [])
    else []

all_zero : List ℕ → Bool
all_zero [] = true
all_zero (b ∷ m) = (b == 0) && all_zero m

-- `for v&0x80 != 0 { n++; v <<= 1 }` on a byte: how many rounds, and the `v` that is left. A byte
-- has no bit set after eight rounds.
leading_ones : ℕ → ℕ → ℕ × ℕ
leading_ones zero v = (0, v)
leading_ones (suc fuel) v =
    let (n, w) = leading_ones fuel (v * 2 % 256) in if leb 128 v then (n + 1, w) else (0, v)

mask_ones : List ℕ → Option ℕ
mask_ones [] = some 0
mask_ones (v ∷ m) =
    let (n, w) = leading_ones 8 v in
    let rest = mask_ones m in
    if v == 255
    then elim rest [ none ↦ none | some k ↦ some (8 + k) ]
    else if (w == 0) && all_zero m
    then some n
    else none

-- The first result of IPMask.Size: the number of leading ones, 0 for a mask that is not canonical.
unfoldable pub mask_size : List ℕ → ℕ
unfolding all_zero leading_ones mask_ones
mask_size m = elim (mask_ones m) [ none ↦ 0 | some n ↦ n ]

-- The second result of IPMask.Size: the number of bits, 0 for a mask that is not canonical.
unfoldable pub mask_bits : List ℕ → ℕ
unfolding all_zero leading_ones mask_ones
mask_bits m = elim (mask_ones m) [ none ↦ 0 | some _ ↦ 8 * length m ]
