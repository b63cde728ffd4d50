-- ===== src/Prefixfile/Filtering.antt =====
-- What the filters and the assertions of local exceptions do (prefixfile/slurm.go).
use stayrtr.Prelude.{
  ℕ, ◌%◌, ◌≤◌, ◌<◌, ◌≡◌, refl, arith, true, false, Option, some, List, [], ◌∷◌, Text, length, ◌==◌,
  All, Bool-cases, Option-cases, inl, inr,
}
use stayrtr.Prelude.Int.{ℤ, pos, negsuc}
use stayrtr.Net.{IpNet, mask_size}
use stayrtr.Prefixfile.{VrpJson, uint32_of_int}
use stayrtr.Prefixfile.Slurm.{
  SlurmPrefixFilter, SlurmPrefixAssertion, SlurmConfig, was_removed, filter_loop, filter_on_vrps,
  asserted_length, assert_one, assert_loop, assert_vrps,
}

-- `xs` and `ys` interleaved, each in its order, are `zs`.
pub data Interleaved {A : Type 0} : List A → List A → List A → Type 0 where
  done : Interleaved [] [] []
  left : {x : A} {xs ys zs : List A} → Interleaved xs ys zs → Interleaved (x ∷ xs) ys (x ∷ zs)
  right : {y : A} {xs ys zs : List A} → Interleaved xs ys zs → Interleaved xs (y ∷ ys) (y ∷ zs)

module _ (parse_cidr : Text → Option IpNet) (uint32_of_float : ℕ → ℕ)
    (number_int64 : Text → ℤ) where
  abbrev IsKept : SlurmConfig → VrpJson → Type 0
  IsKept s vrp = was_removed parse_cidr uint32_of_float number_int64 s.prefix_filters vrp ≡ false

  abbrev IsFiltered : SlurmConfig → VrpJson → Type 0
  IsFiltered s vrp = was_removed parse_cidr uint32_of_float number_int64 s.prefix_filters vrp ≡ true

  -- the given list taken apart, by the test
  abbrev IsParted : SlurmConfig → List VrpJson → List VrpJson × List VrpJson → Type 0
  IsParted s vrps (added, removed) =
      Interleaved added removed vrps × All (IsKept s) added × All (IsFiltered s) removed

  filter_loop_lem :
      (s : SlurmConfig) (vrps : List VrpJson)
      → IsParted s vrps (filter_loop parse_cidr uint32_of_float number_int64 s.prefix_filters vrps)
  unfolding filter_loop
  filter_loop_lem s [] = (Interleaved.done, tt, tt)
  filter_loop_lem s (vrp ∷ vrps) =
      let (order, kept, filtered) = filter_loop_lem s vrps in
      elim (Bool-cases (was_removed parse_cidr uint32_of_float number_int64 s.prefix_filters vrp)) [
        | inl e ↦ rw (e, filter_loop) (Interleaved.right order, kept, (e, filtered))
        | inr e ↦ rw (e, filter_loop) (Interleaved.left order, (e, kept), filtered)
      ]

  Interleaved-left : (vrps : List VrpJson) → Interleaved vrps [] vrps
  Interleaved-left [] = Interleaved.done
  Interleaved-left (vrp ∷ vrps) = Interleaved.left (Interleaved-left vrps)

  All-IsKept :
      (s : SlurmConfig) (vrps : List VrpJson) → length s.prefix_filters ≡ 0 → All (IsKept s) vrps
  unfolding was_removed
  All-IsKept s [] h = tt
  All-IsKept s (vrp ∷ vrps) h = (none_match s.prefix_filters h, All-IsKept s vrps h)
    where
      none_match :
          (filters : List SlurmPrefixFilter)
          → length filters ≡ 0
          → was_removed parse_cidr uint32_of_float number_int64 filters vrp ≡ false
      none_match [] p = refl
      none_match (filter ∷ filters) p = absurd (omega arith)

  pub filter_on_vrps-IsParted :
      (s : SlurmConfig) (vrps : List VrpJson)
      → IsParted s vrps (filter_on_vrps parse_cidr uint32_of_float number_int64 s vrps)
  unfolding filter_on_vrps
  filter_on_vrps-IsParted s vrps = elim (Bool-cases (length s.prefix_filters == 0)) [
    | inl e ↦ rw e (Interleaved-left vrps, All-IsKept s vrps (ground arith), tt)
    | inr e ↦ rw e (filter_loop_lem s vrps)
  ]

  filter_loop-kept :
      (s : SlurmConfig) (vrps : List VrpJson)
      → All (IsKept s) vrps
      → filter_loop parse_cidr uint32_of_float number_int64 s.prefix_filters vrps ≡ (vrps, [])
  unfolding filter_loop
  filter_loop-kept s [] h = refl
  filter_loop-kept s (vrp ∷ vrps) (h, hs) = rw (h, filter_loop-kept s vrps hs) refl

  -- A second pass of the same filters over the VRPs that the first one kept removes nothing.
  filter_on_vrps-again :
      (s : SlurmConfig) (vrps : List VrpJson)
      → let kept = (filter_on_vrps parse_cidr uint32_of_float number_int64 s vrps).0 in
        filter_on_vrps parse_cidr uint32_of_float number_int64 s kept ≡ (kept, [])
  unfolding filter_on_vrps
  filter_on_vrps-again s vrps = elim (Bool-cases (length s.prefix_filters == 0)) [
    | inl e ↦ rw e refl
    | inr e ↦ rw e (filter_loop-kept s _ (filter_loop_lem s vrps).1)
  ]

  -- The maximum length of an assertion fits into a byte.
  abbrev IsShort : SlurmPrefixAssertion → Type 0
  IsShort assertion = elim (assertion.max_prefix_length) [ pos n ↦ n < 256 | negsuc n ↦ Unit ]

  -- The prefix of a VRP parses, and is not longer than the VRP's maximum length.
  abbrev IsCovered : VrpJson → Type 0
  IsCovered vrp =
      (prefix : IpNet) × (parse_cidr vrp.prefix ≡ some prefix)
      × (mask_size prefix.mask ≤ vrp.length)

  asserted_length_lem :
      (n : ℤ) (size : ℕ)
      → (elim n as (λ _. Type 0) [ pos m ↦ m < 256 | negsuc m ↦ Unit ])
      → size ≤ 128
      → size ≤ uint32_of_int (asserted_length parse_cidr uint32_of_float number_int64 n size) % 256
  unfolding asserted_length uint32_of_int
  asserted_length_lem (pos n) size h k = ground arith
  asserted_length_lem (negsuc n) size h k = ground arith

  -- Every asserted VRP has a prefix that parses and a maximum length that is not below the prefix's
  -- own, where the assertions' lengths fit into a byte and prefixes have at most 128 bits.
  assert_vrps-IsCovered :
      (s : SlurmConfig)
      → All IsShort s.prefix_assertions
      → ((t : Text) (prefix : IpNet) → parse_cidr t ≡ some prefix → mask_size prefix.mask ≤ 128)
      → All IsCovered (assert_vrps parse_cidr uint32_of_float number_int64 s)
  unfolding assert_vrps assert_loop assert_one
  assert_vrps-IsCovered s short bounded = go s.prefix_assertions short
    where
      go :
          (assertions : List SlurmPrefixAssertion)
          → All IsShort assertions
          → All IsCovered (assert_loop parse_cidr uint32_of_float number_int64 assertions)
      go [] h = tt
      go (assertion ∷ assertions) (h, hs) = elim (Option-cases (parse_cidr assertion.prefix)) [
        | inl e ↦ rw (e, assert_loop) (go assertions hs)
        | inr (prefix, e) ↦
            rw (e, assert_loop)
              (
                (
                  prefix,
                  e,
                  asserted_length_lem assertion.max_prefix_length (mask_size prefix.mask) h
                      (bounded assertion.prefix prefix e),
                ),
                go assertions hs,
              )
      ]
