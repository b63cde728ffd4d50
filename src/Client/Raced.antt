-- ===== src/Client/Raced.antt =====
-- RequestCache while the cache is updated: it reads the serial and the list in two calls, each of
-- which takes the lock for itself, so that updates may come in between (lib/server.go).
use stayrtr.Prelude.{
  ◌≤◌, ◌<◌, ◌≡◌, refl, arith, true, not, Option-cases, inl, inr, List, length, lt→ltb, Text,
  if◌then◌else◌,
}
use stayrtr.Net.{IpNet}
use stayrtr.Vrp.{Vrp}
use stayrtr.Vrp.Last.{last_with}
use stayrtr.Diff.Replay.{View, replay, holds, replay-last_with}
use stayrtr.Server.{
  Server, done, get_session_id, get_current_serial, get_current_vrps, get_vrps_serial_diff, add_all,
}
use stayrtr.Server.Query.{IsCache}
use stayrtr.Server.Resync.{StaysAway, resync}
use stayrtr.Client.{Client, send_vrps, send_internal_error, send_no_data_error}
use stayrtr.Client.Answers.{sent, data_answer, send_vrps_lem}
use stayrtr.Client.Handlers.{request_cache}

-- RequestCache, where the server is `s` when its serial is read and `later` when its list is read.
unfoldable pub request_cache_between : Server → Server → Client → Client
request_cache_between s later c =
    let session_id = get_session_id s in
    let (serial, valid) = get_current_serial s session_id in
    let (vrps, exists) = get_current_vrps later in
    if not valid
    then send_no_data_error c
    else if not exists
    then send_internal_error c
    else send_vrps c session_id serial vrps

-- Without an update in between it is RequestCache.
request_cache_between-same :
    (s : Server) (c : Client) → request_cache_between s s c ≡ request_cache s c
unfolding request_cache_between request_cache
request_cache_between-same s c = refl

module _ (ipnet_string : IpNet → Text) (k : Text) where
  -- a diff that leads to a view leaves that view as it is
  replay_again :
      (d : List Vrp) (held now : View)
      → replay ipnet_string d held k ≡ now k
      → replay ipnet_string d now k ≡ now k
  replay_again d held now e = elim (Option-cases (last_with ipnet_string k d)) [
    | inl p ↦ ground (arith, p, replay-last_with ipnet_string d now k)
    | inr (v, p) ↦
        ground (
          arith,
          p,
          e,
          replay-last_with ipnet_string d held k,
          replay-last_with ipnet_string d now k,
        )
  ]

  -- Where at most `keep_diff` updates come between the two reads of RequestCache, the router gets
  -- the serial from before them with the list from after them. If it then asks with that serial, it
  -- is answered with a diff, and for each key that was not withdrawn and announced again in between
  -- if the cache had it, a router with the list has the key after that diff exactly if the cache
  -- has. This is of a cache that is well linked with announced entries and keeps a serial and a
  -- diff.
  pub request_cache_raced :
      (s : Server) (updates : List (List Vrp)) (c : Client)
      → IsCache ipnet_string s
      → 0 < length s.vrp_list_serial
      → 0 < length s.vrp_list_diff
      → length updates ≤ s.keep_diff
      → StaysAway ipnet_string k
          (holds ipnet_string s.vrp_current k)
          (holds ipnet_string s.vrp_current k)
          updates
      → let later = add_all ipnet_string s updates in
        (request_cache_between s later c
          ≡ sent c (data_answer c s.sess_id s.vrp_current_serial later.vrp_current))
        × ((d : List Vrp) × (get_vrps_serial_diff later s.vrp_current_serial ≡ done (d, true))
            × (replay ipnet_string d (holds ipnet_string later.vrp_current) k
                ≡ holds ipnet_string later.vrp_current k))
  unfolding request_cache_between get_current_serial get_current_vrps
  request_cache_raced s updates c cache some_serial some_data few away =
      let later = add_all ipnet_string s updates in
      let (d, found, right) =
        resync ipnet_string k s updates cache.linked (cache.known k) some_data few away in
      (
        rw (lt→ltb 0 (length s.vrp_list_serial) some_serial)
            (send_vrps_lem c s.sess_id s.vrp_current_serial later.vrp_current),
        (
          d,
          found,
          replay_again d (holds ipnet_string s.vrp_current) (holds ipnet_string later.vrp_current)
              right,
        ),
      )
