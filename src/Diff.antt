-- ===== src/Diff.antt =====
-- ComputeDiff and ApplyDiff of lib/server.go.
pub mod Lookup
pub mod Replay
pub mod Compute
pub mod Flags
pub mod Merge
pub mod Flap
use stayrtr.Prelude.{
  ℕ, Bool, true, false, Option, none, some, List, [], ◌∷◌, ◌++◌, Text, ◌==◌, if◌then◌else◌, GoMap,
  text_keys, lookup,
}
use stayrtr.Net.{IpNet}
use stayrtr.Pdu.{flag_added, flag_removed}
use stayrtr.Vrp.{Vrp, copy, hash_key, convert_vrp_list_to_map}

-- the tests of the second loop: does an entry of the diff with these flags go into the result,
-- where the previous list has this entry for its key?
unfoldable pub emits : ℕ → Option Vrp → Bool
emits flags found =
    if flags == flag_added
    then true
    else if flags == flag_removed
    then elim found [ none ↦ true | some cvrp ↦ cvrp.flags == flag_removed ]
    else false

module _ (ipnet_string : IpNet → Text) where
  -- the loop over the new VRPs, which collects those that the previous list lacks
  unfoldable pub added_loop : GoMap Text Vrp → List Vrp → List Vrp
  added_loop prev_map [] = []
  added_loop prev_map (vrp ∷ new_vrps) =
      let rest = added_loop prev_map new_vrps in
      elim (lookup (hash_key ipnet_string vrp) prev_map) [
        | none ↦ record (copy vrp) { flags = 1 } ∷ rest
        | some _ ↦ rest
      ]

  -- the loop over the previous VRPs: those that the new list lacks, and those that it has
  unfoldable pub removed_loop : GoMap Text Vrp → List Vrp → List Vrp × List Vrp
  removed_loop new_map [] = ([], [])
  removed_loop new_map (vrp ∷ prev_vrps) =
      let (removed, unchanged) = removed_loop new_map prev_vrps in
      elim (lookup (hash_key ipnet_string vrp) new_map) [
        | none ↦ (record (copy vrp) { flags = 0 } ∷ removed, unchanged)
        | some _ ↦ (removed, copy vrp ∷ unchanged)
      ]

  -- The lists added, removed and unchanged.
  unfoldable pub compute_diff : List Vrp → List Vrp → List Vrp × List Vrp × List Vrp
  unfolding added_loop removed_loop
  compute_diff new_vrps prev_vrps =
      let new_map = convert_vrp_list_to_map ipnet_string new_vrps in
      let prev_map = convert_vrp_list_to_map ipnet_string prev_vrps in
      let added = added_loop prev_map new_vrps in
      let (removed, unchanged) = removed_loop new_map prev_vrps in (added, removed, unchanged)

  -- the first loop of ApplyDiff: what the diff does not name is kept
  unfoldable pub kept_loop : GoMap Text Vrp → List Vrp → List Vrp
  kept_loop diff_map [] = []
  kept_loop diff_map (vrp ∷ prev_vrps) =
      let rest = kept_loop diff_map prev_vrps in
      elim (lookup (hash_key ipnet_string vrp) diff_map) [ none ↦ copy vrp ∷ rest | some _ ↦ rest ]

  -- the second loop of ApplyDiff
  unfoldable pub emit_loop : GoMap Text Vrp → List Vrp → List Vrp
  unfolding emits
  emit_loop prev_map [] = []
  emit_loop prev_map (vrp ∷ diff) =
      let rest = emit_loop prev_map diff in
      if emits vrp.flags (lookup (hash_key ipnet_string vrp) prev_map)
      then copy vrp ∷ rest
      else rest

  unfoldable pub apply_diff : List Vrp → List Vrp → List Vrp
  unfolding kept_loop emit_loop
  apply_diff diff prev_vrps =
      let diff_map = convert_vrp_list_to_map ipnet_string diff in
      let prev_map = convert_vrp_list_to_map ipnet_string prev_vrps in
      kept_loop diff_map prev_vrps ++ emit_loop prev_map diff
