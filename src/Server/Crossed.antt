-- ===== src/Server/Crossed.antt =====
-- A router that has a serial with a list from after it (lib/server.go, GetVRPsSerialDiff).
use stayrtr.Prelude.{◌≤◌, ◌<◌, ◌≡◌, arith, ◌∙◌, true, false, none, some, List, length, Text}
use stayrtr.Net.{IpNet}
use stayrtr.Vrp.{Vrp}
use stayrtr.Vrp.Last.{last_with}
use stayrtr.Diff.{apply_diff, emits}
use stayrtr.Diff.Lookup.{AllFlag, last_with-AllFlag}
use stayrtr.Diff.Replay.{holds, replay, replay-last_with}
use stayrtr.Diff.Compute.{diff_of}
use stayrtr.Diff.Flags.{diff_of-AllFlag}
use stayrtr.Diff.Merge.{apply_diff-lookup}
use stayrtr.Diff.Flap.{withdrawn, announced_again}
use stayrtr.Server.{Server, done, add_vrps, get_vrps_serial_diff}
use stayrtr.Server.Query.{IsCache, add_vrps-IsCache, holds-add_vrps}
use stayrtr.Server.Places.{new_diff_at, old_diff_at}
use stayrtr.Server.Tracks.{get_vrps_serial_diff-Tracks}
use stayrtr.Server.Resync.{start-Tracks, update-Tracks, keep_diff-add}

module _ (ipnet_string : IpNet → Text) (k : Text) where
  -- A key that one diff announces and the next one withdraws is not in the merge of the two.
  cancelled :
      (d1 d2 : List Vrp) (v1 v2 : Vrp)
      → AllFlag ipnet_string k 1 d1
      → last_with ipnet_string k d1 ≡ some v1
      → AllFlag ipnet_string k 0 d2
      → last_with ipnet_string k d2 ≡ some v2
      → last_with ipnet_string k (apply_diff ipnet_string d2 d1) ≡ none
  unfolding emits
  cancelled d1 d2 v1 v2 h1 e1 h2 e2 = ground (
    arith,
    e1,
    e2,
    apply_diff-lookup ipnet_string k 0 d2 d1 h2,
    last_with-AllFlag ipnet_string k 1 d1 v1 h1 e1,
    last_with-AllFlag ipnet_string k 0 d2 v2 h2 e2,
  )

  -- the merge of the diffs of two updates, for a key that only the list between them has
  between_gone :
      (cur mid new later : List Vrp)
      → holds ipnet_string cur k ≡ false
      → holds ipnet_string mid k ≡ true
      → holds ipnet_string new k ≡ true
      → holds ipnet_string later k ≡ false
      → last_with ipnet_string k
          (apply_diff ipnet_string (diff_of ipnet_string later mid) (diff_of ipnet_string new cur))
        ≡ none
  between_gone cur mid new later h1 h2 h3 h4 =
      let (v1, e1) = announced_again ipnet_string k new cur h1 h3 in
      let (v2, e2, _) = withdrawn ipnet_string k later mid h2 h4 in
      let f1 : AllFlag ipnet_string k 1 (diff_of ipnet_string new cur) =
        rw h1 at (diff_of-AllFlag ipnet_string k new cur) in
      let f2 : AllFlag ipnet_string k 0 (diff_of ipnet_string later mid) =
        rw h2 at (diff_of-AllFlag ipnet_string k later mid) in
      cancelled (diff_of ipnet_string new cur) (diff_of ipnet_string later mid) v1 v2 f1 e1 f2 e2

  -- A router that has the serial from before two updates and the list from between them, as where
  -- an update comes between the two reads of RequestCache, and that asks with its serial after
  -- both: for a key that only the list between the updates has, it is answered with a diff that
  -- leaves it with the key, although the cache has not. This is of a cache that is well linked with
  -- announced entries, keeps a diff, and may keep two.
  pub crossed_keeps_stale :
      (s : Server) (new later : List Vrp)
      → IsCache ipnet_string s
      → 0 < length s.vrp_list_diff
      → 2 ≤ s.keep_diff
      → holds ipnet_string s.vrp_current k ≡ false
      → holds ipnet_string new k ≡ true
      → holds ipnet_string later k ≡ false
      → let s1 = add_vrps ipnet_string s new in
        let s2 = add_vrps ipnet_string s1 later in
        (d : List Vrp) × (get_vrps_serial_diff s2 s.vrp_current_serial ≡ done (d, true))
        × (replay ipnet_string d (holds ipnet_string s1.vrp_current) k ≡ true)
        × (holds ipnet_string s2.vrp_current k ≡ false)
  unfolding add_vrps
  crossed_keeps_stale s new later cache some_data enough h1 h3 h4 =
      let s1 = add_vrps ipnet_string s new in
      let cache1 = add_vrps-IsCache ipnet_string s new cache in
      let d1 = diff_of ipnet_string new s.vrp_current in
      let d2 = diff_of ipnet_string later s1.vrp_current in
      let held = holds ipnet_string s.vrp_current in
      let h2 : holds ipnet_string s1.vrp_current k ≡ true =
        holds-add_vrps ipnet_string s new k cache ∙ h3 in
      let t1 =
        update-Tracks ipnet_string k s new s.vrp_current_serial 0 held
          (start-Tracks ipnet_string k s cache.linked (cache.known k) some_data) (λ e. cc (e, h1))
          (omega (arith, enough)) in
      let enough1 : 2 ≤ s1.keep_diff = rw (keep_diff-add ipnet_string s new) enough in
      let t2 =
        update-Tracks ipnet_string k s1 later s.vrp_current_serial 1 held t1 (λ e p. h4) enough1 in
      let found1 = new_diff_at ipnet_string s d1 cache.linked in
      let found2 =
        old_diff_at ipnet_string s1 d2 t1.linked 1 d1 (omega arith)
          (ground (arith, t1.kept, t1.linked.diffs, t1.linked.bounded, enough1)) found1 in
      (
        apply_diff ipnet_string d2 d1,
        get_vrps_serial_diff-Tracks ipnet_string k (add_vrps ipnet_string s1 later)
            s.vrp_current_serial 2 held t2 (omega arith) (apply_diff ipnet_string d2 d1) found2,
        ground (
          arith,
          h2,
          replay-last_with ipnet_string (apply_diff ipnet_string d2 d1)
              (holds ipnet_string s1.vrp_current) k,
          between_gone s.vrp_current s1.vrp_current new later h1 h2 h3 h4,
        ),
        holds-add_vrps ipnet_string s1 later k cache1 ∙ h4,
      )
