-- ===== src/Diff/Flags.antt =====
-- The flags of the entries of a computed diff (lib/server.go: ComputeDiff).
use stayrtr.Prelude.{
  ℕ, ◌≡◌, ◌≢◌, refl, arith, none, List, [], ◌∷◌, Text, text_eq_iff, GoMap, text_keys, lookup,
  Option-cases, inl, inr, All-append, if◌then◌else◌,
}
use stayrtr.Net.{IpNet}
use stayrtr.Vrp.{Vrp, hash_key, convert_vrp_list_to_map}
use stayrtr.Vrp.Last.{last_with, lookup-convert}
use stayrtr.Diff.{added_loop, removed_loop, compute_diff}
use stayrtr.Diff.Lookup.{AllFlag}
use stayrtr.Diff.Replay.{holds}
use stayrtr.Diff.Compute.{diff_of}

module _ (ipnet_string : IpNet → Text) (k : Text) where
  added_loop-flag :
      (m : GoMap Text Vrp) (l : List Vrp) → AllFlag ipnet_string k 1 (added_loop ipnet_string m l)
  unfolding added_loop
  added_loop-flag m [] = tt
  added_loop-flag m (v ∷ l) = elim (Option-cases (lookup (hash_key ipnet_string v) m)) [
    | inl e ↦ rw (e, added_loop) ((λ _. refl), added_loop-flag m l)
    | inr (w, e) ↦ rw (e, added_loop) (added_loop-flag m l)
  ]

  removed_loop-flag :
      (m : GoMap Text Vrp) (l : List Vrp)
      → AllFlag ipnet_string k 0 (removed_loop ipnet_string m l).0
  unfolding removed_loop
  removed_loop-flag m [] = tt
  removed_loop-flag m (v ∷ l) = elim (Option-cases (lookup (hash_key ipnet_string v) m)) [
    | inl e ↦ rw (e, removed_loop) ((λ _. refl), removed_loop-flag m l)
    | inr (w, e) ↦ rw (e, removed_loop) (removed_loop-flag m l)
  ]

  -- a key that the previous list has is not added
  added_loop-absent :
      (f : ℕ) (m : GoMap Text Vrp) (l : List Vrp)
      → lookup k m ≢ none
      → AllFlag ipnet_string k f (added_loop ipnet_string m l)
  unfolding added_loop hash_key
  added_loop-absent f m [] h = tt
  added_loop-absent f m (v ∷ l) h = elim (Option-cases (lookup (hash_key ipnet_string v) m)) [
    | inl e ↦ rw (e, added_loop) ((λ p. absurd (h (rw (← p) e))), added_loop-absent f m l h)
    | inr (w, e) ↦ rw (e, added_loop) (added_loop-absent f m l h)
  ]

  -- nor is one removed that it lacks
  removed_loop-absent :
      (f : ℕ) (m : GoMap Text Vrp) (l : List Vrp)
      → last_with ipnet_string k l ≡ none
      → AllFlag ipnet_string k f (removed_loop ipnet_string m l).0
  unfolding removed_loop last_with hash_key
  removed_loop-absent f m [] h = tt
  removed_loop-absent f m (v ∷ l) h =
      let rest = removed_loop-absent f m l (ground arith) in
      elim (Option-cases (lookup (hash_key ipnet_string v) m)) [
        | inl e ↦
            rw (e, removed_loop)
              ((λ p. absurd (ground (arith, text_eq_iff (hash_key ipnet_string v) k))), rest)
        | inr (w, e) ↦ rw (e, removed_loop) rest
      ]

  -- the flag of every entry for `k` in the diff of `prev` with another list
  abbrev pub flag_after : List Vrp → ℕ
  flag_after prev = if holds ipnet_string prev k then 0 else 1

  -- For each key: every entry for it in the diff of two lists is a withdrawal if the previous list has
  -- the key, and else an announcement.
  pub diff_of-AllFlag :
      (new prev : List Vrp)
      → AllFlag ipnet_string k (flag_after prev) (diff_of ipnet_string new prev)
  unfolding compute_diff
  diff_of-AllFlag new prev =
      let prev_map = convert_vrp_list_to_map ipnet_string prev in
      let new_map = convert_vrp_list_to_map ipnet_string new in
      elim (Option-cases (last_with ipnet_string k prev)) [
        | inl e ↦ rw e (
            All-append _ (added_loop ipnet_string prev_map new) _ (added_loop-flag prev_map new)
              (removed_loop-absent 1 new_map prev e))
        | inr (v, e) ↦ rw e (
            All-append _ (added_loop ipnet_string prev_map new) _
              (added_loop-absent 0 prev_map new
                (λ p. ground (arith, lookup-convert ipnet_string k prev)))
              (removed_loop-flag new_map prev))
      ]
