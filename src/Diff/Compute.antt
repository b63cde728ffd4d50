-- ===== src/Diff/Compute.antt =====
-- ComputeDiff, and a router that goes from the one list to the other by the diff (lib/server.go).
use stayrtr.Prelude.{◌≡◌, arith, List, ◌++◌, Text, text_keys}
use stayrtr.Net.{IpNet}
use stayrtr.Vrp.{Vrp, convert_vrp_list_to_map}
use stayrtr.Vrp.Last.{or_else, last_with, last_with-append, lookup-convert}
use stayrtr.Diff.{compute_diff}
use stayrtr.Diff.Lookup.{flagged, unless, last_with-added_loop, last_with-removed_loop}
use stayrtr.Diff.Replay.{replay, holds, replay-last_with}

module _ (ipnet_string : IpNet → Text) where
  -- `append(added, removed...)`
  abbrev pub diff_of : List Vrp → List Vrp → List Vrp
  diff_of new prev =
      (compute_diff ipnet_string new prev).0 ++ (compute_diff ipnet_string new prev).1

  module _ (k : Text) (new prev : List Vrp) where
    pub last_with-added :
        last_with ipnet_string k (compute_diff ipnet_string new prev).0
        ≡ unless (last_with ipnet_string k prev) (flagged 1 (last_with ipnet_string k new))
    unfolding compute_diff
    last_with-added = ground (
      arith,
      last_with-added_loop ipnet_string k (convert_vrp_list_to_map ipnet_string prev) new,
      lookup-convert ipnet_string k prev,
    )

    pub last_with-removed :
        last_with ipnet_string k (compute_diff ipnet_string new prev).1
        ≡ unless (last_with ipnet_string k new) (flagged 0 (last_with ipnet_string k prev))
    unfolding compute_diff
    last_with-removed = ground (
      arith,
      last_with-removed_loop ipnet_string k (convert_vrp_list_to_map ipnet_string new) prev,
      lookup-convert ipnet_string k new,
    )

    pub last_with-diff_of :
        last_with ipnet_string k (diff_of new prev)
        ≡ or_else
            (unless (last_with ipnet_string k new) (flagged 0 (last_with ipnet_string k prev)))
            (unless (last_with ipnet_string k prev) (flagged 1 (last_with ipnet_string k new)))
    last_with-diff_of = ground (
      arith,
      last_with-append ipnet_string k (compute_diff ipnet_string new prev).0
          (compute_diff ipnet_string new prev).1,
      last_with-added,
      last_with-removed,
    )

    -- For each key: a router that holds the previous list and takes in the diff that ComputeDiff makes,
    -- the added VRPs before the removed ones, holds the new list.
    pub replay-compute_diff :
        replay ipnet_string (diff_of new prev) (holds ipnet_string prev) k
        ≡ holds ipnet_string new k
    replay-compute_diff = ground (
      arith,
      replay-last_with ipnet_string (diff_of new prev) (holds ipnet_string prev) k,
      last_with-diff_of,
    )
