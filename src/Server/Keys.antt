-- ===== src/Server/Keys.antt =====
-- One key under an update of the current list, and of an older diff.
use stayrtr.Prelude.{◌≡◌, ◌∙◌, arith, Bool, true, false, List, Text, nat_eq}
use stayrtr.Net.{IpNet}
use stayrtr.Vrp.{Vrp}
use stayrtr.Diff.{apply_diff, emits}
use stayrtr.Diff.Replay.{holds}
use stayrtr.Diff.Compute.{diff_of, last_with-diff_of, replay-compute_diff}
use stayrtr.Diff.Flags.{flag_after, diff_of-AllFlag}
use stayrtr.Diff.Merge.{IsFresh, IsAnnounced, apply_diff-lookup, apply_diff-current}

module _ (ipnet_string : IpNet → Text) (k : Text) where
  -- The new list against the current one, for one key.
  module _ (new cur : List Vrp) (known : IsAnnounced ipnet_string k cur) where
    -- after the update the current list has the key exactly if the new list has
    pub holds-update :
        holds ipnet_string (apply_diff ipnet_string (diff_of ipnet_string new cur) cur) k
        ≡ holds ipnet_string new k
    holds-update =
        apply_diff-current ipnet_string k (flag_after ipnet_string k cur)
          (diff_of ipnet_string new cur) cur (diff_of-AllFlag ipnet_string k new cur) (ground arith)
          known
        ∙ replay-compute_diff ipnet_string k new cur

    pub update-IsAnnounced :
        IsAnnounced ipnet_string k (apply_diff ipnet_string (diff_of ipnet_string new cur) cur)
    unfolding emits
    update-IsAnnounced v e = ground (
      arith,
      known,
      apply_diff-lookup ipnet_string k (flag_after ipnet_string k cur)
          (diff_of ipnet_string new cur) cur (diff_of-AllFlag ipnet_string k new cur),
      last_with-diff_of ipnet_string k new cur,
      known v,
    )

    -- a diff against the current list announces only what that list lacks
    pub diff_of-IsFresh :
        IsFresh ipnet_string k (diff_of ipnet_string new cur) (holds ipnet_string cur)
    diff_of-IsFresh v e = ground (arith, last_with-diff_of ipnet_string k new cur)

    -- merged with an older diff, it announces what a router lacks, unless the key comes back
    pub apply_diff-IsFresh :
        (older : List Vrp) (held : Text → Bool)
        → IsFresh ipnet_string k older held
        → (held k ≡ true → holds ipnet_string cur k ≡ false → holds ipnet_string new k ≡ false)
        → IsFresh ipnet_string k (apply_diff ipnet_string (diff_of ipnet_string new cur) older) held
    unfolding emits
    apply_diff-IsFresh older held fresh stays v e = ground (
      arith,
      stays,
      apply_diff-lookup ipnet_string k (flag_after ipnet_string k cur)
          (diff_of ipnet_string new cur) older (diff_of-AllFlag ipnet_string k new cur),
      last_with-diff_of ipnet_string k new cur,
      fresh v,
    )
