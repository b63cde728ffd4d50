-- ===== src/Feed/Updated.antt =====
-- The server after an update from a file (cmd/stayrtr/stayrtr.go: updateFromNewState).
use stayrtr.Prelude.{ℕ, ◌≡◌, ◌&&◌, false, Option, some, List, Text}
use stayrtr.Prelude.Int.{ℤ}
use stayrtr.Net.{IpNet}
use stayrtr.Vrp.Last.{last_with}
use stayrtr.Diff.Replay.{holds}
use stayrtr.Prefixfile.{VrpJson}
use stayrtr.Server.Query.{IsCache, add_vrps-IsCache, holds-add_vrps}
use stayrtr.Feed.{process_data}
use stayrtr.Feed.State.{
  update_from_data, state_after, State, is_stale, with_exceptions, new_vrps, update_from_new_state,
}

module _ (ipnet_string : IpNet → Text) (parse_cidr : Text → Option IpNet) (uint32_of_float : ℕ → ℕ)
    (number_int64 : Text → ℤ) (parse_time : Text → Option ℕ) where
  -- An update from a file that was read and is not too old, or whose age is not checked, keeps the
  -- server's cache well linked with announced entries, and the server's current list has exactly the
  -- keys of the file's valid VRPs after the local exceptions.
  update_from_new_state-holds :
      (s : State) (now : ℕ) (vrpsjson : List VrpJson)
      → IsCache ipnet_string s.server
      → s.lastdata.data_of ≡ some vrpsjson
      → (s.checktime
          && is_stale ipnet_string parse_cidr uint32_of_float number_int64 parse_time now
              s.lastdata.metadata.buildtime)
        ≡ false
      → let s' = state_after (
          update_from_new_state ipnet_string parse_cidr uint32_of_float number_int64 parse_time s
            now) in
        let wanted =
          (process_data ipnet_string parse_cidr uint32_of_float (
            with_exceptions ipnet_string parse_cidr uint32_of_float number_int64 parse_time s.slurm
              vrpsjson)).0 in
        IsCache ipnet_string s'.server
        × ((k : Text) → holds ipnet_string s'.server.vrp_current k ≡ holds ipnet_string wanted k)
  unfolding update_from_new_state update_from_data last_with new_vrps
  update_from_new_state-holds s now vrpsjson cache read fresh =
      rw (read, fresh, update_from_new_state)
        (
          add_vrps-IsCache ipnet_string s.server _ cache,
          λ k. holds-add_vrps ipnet_string s.server _ k cache,
        )
