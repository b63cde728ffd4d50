-- ===== src/Diff/Flap.antt =====
-- A key that goes, comes back and goes again within the diffs that are kept.
use stayrtr.Prelude.{◌≡◌, arith, true, false, Option-cases, inl, inr, List, Text, some, refl}
use stayrtr.Net.{IpNet}
use stayrtr.Vrp.{Vrp}
use stayrtr.Vrp.Last.{last_with}
use stayrtr.Diff.{apply_diff}
use stayrtr.Diff.Lookup.{AllFlag}
use stayrtr.Diff.Replay.{holds, replay, replay-last_with}
use stayrtr.Diff.Compute.{diff_of, last_with-diff_of}
use stayrtr.Diff.Flags.{diff_of-AllFlag}
use stayrtr.Diff.Merge.{apply_diff_flap}

module _ (ipnet_string : IpNet → Text) (k : Text) where
  -- One that the previous list has and the new list lacks is in the diff, as a withdrawal.
  pub withdrawn :
      (new prev : List Vrp)
      → holds ipnet_string prev k ≡ true
      → holds ipnet_string new k ≡ false
      → (v : Vrp) × (last_with ipnet_string k (diff_of ipnet_string new prev) ≡ some v)
        × (v.flags ≡ 0)
  withdrawn new prev hp hn = elim (Option-cases (last_with ipnet_string k prev)) [
    | inl e ↦ absurd (ground arith)
    | inr (v, e) ↦
        (record v { flags = 0 }, ground (arith, last_with-diff_of ipnet_string k new prev), refl)
  ]

  pub announced_again :
      (new prev : List Vrp)
      → holds ipnet_string prev k ≡ false
      → holds ipnet_string new k ≡ true
      → (v : Vrp) × (last_with ipnet_string k (diff_of ipnet_string new prev) ≡ some v)
  announced_again new prev hp hn = elim (Option-cases (last_with ipnet_string k new)) [
    | inl e ↦ absurd (ground arith)
    | inr (v, e) ↦
        (record v { flags = 1 }, ground (arith, last_with-diff_of ipnet_string k new prev))
  ]

  -- Over four lists in turn, of which the first and the third have a key and the others lack it, the
  -- three diffs, merged by ApplyDiff, leave a router that held the first list with the key.
  pub flap_keeps_stale :
      (l1 l2 l3 l4 : List Vrp)
      → holds ipnet_string l1 k ≡ true
      → holds ipnet_string l2 k ≡ false
      → holds ipnet_string l3 k ≡ true
      → holds ipnet_string l4 k ≡ false
      → replay ipnet_string
          (apply_diff ipnet_string
            (diff_of ipnet_string l4 l3)
            (apply_diff ipnet_string (diff_of ipnet_string l3 l2) (diff_of ipnet_string l2 l1)))
          (holds ipnet_string l1)
          k
        ≡ true
  flap_keeps_stale l1 l2 l3 l4 h1 h2 h3 h4 =
      let d1 = diff_of ipnet_string l2 l1 in
      let d2 = diff_of ipnet_string l3 l2 in
      let d3 = diff_of ipnet_string l4 l3 in
      let (v1, e1, f1) = withdrawn l2 l1 h1 h2 in
      let (v2, e2) = announced_again l3 l2 h2 h3 in
      let (v3, e3, f3) = withdrawn l4 l3 h3 h4 in
      let f2 : AllFlag ipnet_string k 1 d2 = rw h2 at (diff_of-AllFlag ipnet_string k l3 l2) in
      let f4 : AllFlag ipnet_string k 0 d3 = rw h3 at (diff_of-AllFlag ipnet_string k l4 l3) in
      ground (
        arith,
        apply_diff_flap ipnet_string k d1 d2 d3 v1 v2 v3 e1 f1 f2 e2 f4 e3,
        replay-last_with ipnet_string (apply_diff ipnet_string d3 (apply_diff ipnet_string d2 d1))
            (holds ipnet_string l1) k,
      )
