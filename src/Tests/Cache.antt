-- ===== src/Tests/Cache.antt =====
-- The cache and its diffs.
use stayrtr.Prelude.{
  ◌≡◌, ◌≢◌, ◌<◌, refl, arith, true, false, List, [], ◌∷◌, Text, ℕ, lookup, nat_eq, text_keys,
  text_eq, decimal,
}
use stayrtr.Server.{done, add_vrps, add_all, get_vrps_serial_diff}
use stayrtr.Server.Serials.{serials, steps}
use stayrtr.Server.Linked.{index_for, IsLinked}
use stayrtr.Server.Query.{IsCache, add_vrps-IsCache}
use stayrtr.Server.Resync.{resync}
use stayrtr.Vrp.{Vrp, hash_key}
use stayrtr.Vrp.Last.{last_with}
use stayrtr.Diff.{apply_diff}
use stayrtr.Diff.Replay.{holds, replay}
use stayrtr.Diff.Compute.{diff_of, replay-compute_diff}
use stayrtr.Diff.Merge.{IsAnnounced}
use stayrtr.Diff.Flap.{flap_keeps_stale}
use stayrtr.Server.Crossed.{crossed_keeps_stale}
use stayrtr.Client.Raced.{request_cache_between, request_cache_raced}
use stayrtr.Client.Answers.{sent, data_answer}
use stayrtr.Tests.{raw_text, router, cache, vrp10, vrp11, key10, key11, announced10}

pub cache_entries :
    (serial : ℕ)
    → serial < 4294967296
    → serial ≢ 5
    → lookup serial cache.vrp_map_serial ≡ index_for (steps 5 serial) 1
unfolding lookup
cache_entries serial h ne = ground arith

unfoldable pub cache_linked : IsLinked cache
unfolding serials
cache_linked = record {
  start = 5;
  count = 1;
  start_fits = omega arith;
  keep_positive = omega arith;
  keep_bounded = omega arith;
  automatic = refl;
  list = refl;
  bounded = omega arith;
  diffs = refl;
  current = refl;
  entries = cache_entries;
}

pub known : (k : Text) → IsAnnounced raw_text k (announced10 ∷ [])
unfolding last_with
known k v e = ground arith

resync_example :
    (d : List Vrp) × (get_vrps_serial_diff (add_all raw_text cache ((vrp11 ∷ []) ∷ [])) 5
      ≡ done (d, true))
    × (replay raw_text d (holds raw_text (announced10 ∷ [])) key10
        ≡ holds raw_text (add_all raw_text cache ((vrp11 ∷ []) ∷ [])).vrp_current key10)
unfolding last_with hash_key
resync_example =
    resync raw_text key10 cache ((vrp11 ∷ []) ∷ []) cache_linked (known key10) (omega arith)
      (omega arith) ((λ h n. absurd (ground arith)), tt)

add_vrps-IsCache_example : IsCache raw_text (add_vrps raw_text cache (vrp11 ∷ []))
add_vrps-IsCache_example =
    add_vrps-IsCache raw_text cache (vrp11 ∷ []) (record { linked = cache_linked; known = known })

replay-compute_diff_example :
    replay raw_text (diff_of raw_text (vrp11 ∷ []) (vrp10 ∷ [])) (holds raw_text (vrp10 ∷ [])) key10
    ≡ holds raw_text (vrp11 ∷ []) key10
replay-compute_diff_example = replay-compute_diff raw_text key10 (vrp11 ∷ []) (vrp10 ∷ [])

flap_keeps_stale_example :
    replay raw_text
      (apply_diff raw_text
        (diff_of raw_text [] (vrp10 ∷ []))
        (apply_diff raw_text (diff_of raw_text (vrp10 ∷ []) []) (diff_of raw_text [] (vrp10 ∷ []))))
      (holds raw_text (vrp10 ∷ []))
      key10
    ≡ true
unfolding last_with hash_key text_eq decimal
flap_keeps_stale_example =
    flap_keeps_stale raw_text key10 (vrp10 ∷ []) [] (vrp10 ∷ []) [] refl refl refl refl

request_cache_raced_example :
    let later = add_all raw_text cache ((vrp11 ∷ []) ∷ []) in
    (request_cache_between cache later router
      ≡ sent router (data_answer router 9 5 later.vrp_current))
    × ((d : List Vrp) × (get_vrps_serial_diff later 5 ≡ done (d, true))
        × (replay raw_text d (holds raw_text later.vrp_current) key10
            ≡ holds raw_text later.vrp_current key10))
unfolding last_with
request_cache_raced_example =
    request_cache_raced raw_text key10 cache ((vrp11 ∷ []) ∷ []) router
      (record { linked = cache_linked; known = known }) (omega arith) (omega arith) (omega arith)
      ((λ h n. absurd (ground arith)), tt)

crossed_keeps_stale_example :
    let s1 = add_vrps raw_text cache (vrp11 ∷ []) in
    let s2 = add_vrps raw_text s1 [] in
    (d : List Vrp) × (get_vrps_serial_diff s2 5 ≡ done (d, true))
    × (replay raw_text d (holds raw_text s1.vrp_current) key11 ≡ true)
    × (holds raw_text s2.vrp_current key11 ≡ false)
unfolding last_with hash_key text_eq decimal
crossed_keeps_stale_example =
    crossed_keeps_stale raw_text key11 cache (vrp11 ∷ []) []
      (record { linked = cache_linked; known = known }) (omega arith) (omega arith) refl refl refl
