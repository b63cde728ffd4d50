-- ===== src/Feed/State.antt =====
-- cmd/stayrtr/stayrtr.go: the daemon's state, and its update from the file that was read last.
use stayrtr.Prelude.{
  ℕ, ◌+◌, Bool, true, ◌&&◌, Option, none, some, List, [], ◌∷◌, ◌++◌, Text, length, ltb,
  if◌then◌else◌,
}
use stayrtr.Prelude.Int.{ℤ}
use stayrtr.Net.{IpNet}
use stayrtr.Pdu.{Pdu, serial_notify}
use stayrtr.Prefixfile.{VrpJson, VrpList}
use stayrtr.Prefixfile.Slurm.{SlurmConfig, filter_on_vrps, assert_vrps}
use stayrtr.Server.{Server, get_current_serial, add_vrps}
use stayrtr.Fetch.{FetchConfig}
use stayrtr.Feed.{process_data}

-- The struct state, without its locks and without `useSerial`, which nothing reads. `lasthash` is
-- `none` for nil, and `lastchange` for the zero time. The metrics of package-level variables that the
-- fetching of files sets are here too: the times of LastRefresh, and the codes that
-- RefreshStatusCode counts. A time is a number of nanoseconds.
pub record State : Type 0 where
  pub lastdata : VrpList
  pub lasthash : Option Text
  pub lastchange : Option ℕ
  pub lastts : ℕ
  pub send_notifs : Bool
  pub fetch_config : FetchConfig
  pub server : Server
  pub exported : VrpList
  pub slurm : Option SlurmConfig
  pub checktime : Bool
  pub last_refresh : List ℕ
  pub refresh_status_code : List ℤ

-- What updateFromNewState returns, with the state after it and the notifications that it sent.
pub data UpdateResult : Type 0 where
  updated : State → List (ℕ × Pdu) → UpdateResult
  failed : State → UpdateResult

abbrev pub state_after : UpdateResult → State
state_after (updated s _) = s
state_after (UpdateResult.failed s) = s

notify_each : Pdu → List ℕ → List (ℕ × Pdu)
notify_each pdu [] = []
notify_each pdu (client ∷ clients) = (client, pdu) ∷ notify_each pdu clients

-- NotifyClientsLatest of Server: the PDU that each client is told to send. Its version is set when
-- it is sent.
unfoldable pub notify_clients_latest : Server → List (ℕ × Pdu)
unfolding notify_each
notify_clients_latest s =
    let (serial, _) = get_current_serial s s.sess_id in
    notify_each
      (serial_notify (record { version = 0; session_id = s.sess_id; serial_number = serial }))
      s.clients

-- `parse_time` is time.Parse of RFC 3339 in nanoseconds, `none` for an error.
module _ (ipnet_string : IpNet → Text) (parse_cidr : Text → Option IpNet) (uint32_of_float : ℕ → ℕ)
    (number_int64 : Text → ℤ) (parse_time : Text → Option ℕ) where
  -- is the file too old at the time `now`, or its time unreadable?
  unfoldable pub is_stale : ℕ → Text → Bool
  is_stale now buildtime = elim (parse_time buildtime) [
    | none ↦ true
    | some t ↦ ltb (t + 86400000000000) now
  ]

  -- the VRPs of the file after the local exceptions
  unfoldable pub with_exceptions : Option SlurmConfig → List VrpJson → List VrpJson
  with_exceptions none vrpsjson = vrpsjson
  with_exceptions (some slurm) vrpsjson =
      let (kept, removed) = filter_on_vrps parse_cidr uint32_of_float number_int64 slurm vrpsjson in
      kept ++ assert_vrps parse_cidr uint32_of_float number_int64 slurm

  unfoldable pub new_vrps : State → List VrpJson → State
  new_vrps s vrpsjson =
      let (vrps, count, countv4, countv6) =
        process_data ipnet_string parse_cidr uint32_of_float vrpsjson in
      record s {
        server = add_vrps ipnet_string s.server vrps;
        exported = record {
          metadata = record { counts = length vrpsjson; buildtime = s.lastdata.metadata.buildtime };
          data_of = some vrpsjson;
        };
      }

  -- updateFromNewState, with the data of the last file
  unfoldable pub update_from_data : State → ℕ → Option (List VrpJson) → UpdateResult
  update_from_data s now none = updated s []
  update_from_data s now (some vrpsjson) =
      if s.checktime && is_stale now s.lastdata.metadata.buildtime
      then failed s
      else let s' = new_vrps s (with_exceptions s.slurm vrpsjson) in
        updated s' (if s.send_notifs then notify_clients_latest s'.server else [])

  unfoldable pub update_from_new_state : State → ℕ → UpdateResult
  update_from_new_state s now = update_from_data s now s.lastdata.data_of
