-- ===== src/Server.antt =====
-- The cache of lib/server.go: the VRPs of the current serial, the diffs that lead to it from the
-- serials before it, and the operations that update and query them.
pub mod Serials
pub mod Linked
pub mod Update
pub mod Keys
pub mod Tracks
pub mod Places
pub mod Resync
pub mod Query
pub mod Crossed
use stayrtr.Prelude.{
  ℕ, zero, suc, ◌+◌, ◌-◌, Bool, true, false, not, ◌&&◌, Option, none, some, List, [], ◌∷◌, ◌++◌,
  map, Text, length, get_or, take, drop, ltb, leb, ◌==◌, if◌then◌else◌, u32, u16, GoMap, nat_eq,
  lookup, insert, delete, update_all,
}
use stayrtr.Prelude.Int.{ℤ, pos, negsuc, sub_ℕ, get_elem_ℤ?}
use stayrtr.Net.{IpNet}
use stayrtr.Vrp.{Vrp}
use stayrtr.Diff.{compute_diff, apply_diff}

-- The struct Server without its locks, its log, its handlers and its ssh configuration. A client is
-- known by a number. A `keep_diff` that is negative behaves as 0.
pub record Server : Type 0 where
  pub base_version : ℕ
  pub clients : List ℕ
  pub sess_id : ℕ
  pub connected : ℤ
  pub maxconn : ℤ
  pub enforce_version : Bool
  pub vrp_list_diff : List (List Vrp)
  pub vrp_map_serial : GoMap ℕ ℤ
  pub vrp_list_serial : List ℕ
  pub vrp_current : List Vrp
  pub vrp_current_serial : ℕ
  pub keep_diff : ℕ
  pub manualserial : Bool
  pub pdu_refresh_interval : ℕ
  pub pdu_retry_interval : ℕ
  pub pdu_expire_interval : ℕ

-- The struct ServerConfiguration without its log.
pub record ServerConfiguration : Type 0 where
  pub max_conn : ℤ
  pub protocol_version : ℕ
  pub enforce_version : Bool
  pub keep_difference : ℕ
  pub sess_id : ℤ
  pub refresh_interval : ℕ
  pub retry_interval : ℕ
  pub expire_interval : ℕ

-- GenerateSessionId cuts a random uint32, which is a parameter, down to a uint16.
generate_session_id : ℕ → ℕ
generate_session_id random = u16 random

choose_session_id : ℤ → ℕ → ℕ
unfolding generate_session_id
choose_session_id (pos n) random = u16 n
choose_session_id (negsuc n) random = generate_session_id random

interval_or : ℕ → ℕ → ℕ
interval_or given default = if given == 0 then default else given

unfoldable pub new_server : ServerConfiguration → ℕ → Server
unfolding choose_session_id interval_or
new_server configuration random = record {
  base_version = configuration.protocol_version;
  clients = [];
  sess_id = choose_session_id configuration.sess_id random;
  connected = pos 0;
  maxconn = configuration.max_conn;
  enforce_version = configuration.enforce_version;
  vrp_list_diff = [];
  vrp_map_serial = [];
  vrp_list_serial = [];
  vrp_current = [];
  vrp_current_serial = 0;
  keep_diff = configuration.keep_difference;
  manualserial = false;
  pdu_refresh_interval = interval_or configuration.refresh_interval 3600;
  pdu_retry_interval = interval_or configuration.retry_interval 600;
  pdu_expire_interval = interval_or configuration.expire_interval 7200;
}

unfoldable pub set_manual_serial : Server → Bool → Server
set_manual_serial s v = record s { manualserial = v }

abbrev pub get_session_id : Server → ℕ
get_session_id s = s.sess_id

unfoldable pub get_current_vrps : Server → List Vrp × Bool
get_current_vrps s = (s.vrp_current, true)

-- The result of code that may index out of range.
pub data Outcome (A : Type 0) : Type 0 where
  done : A → Outcome A
  panic : Outcome A

diff_at : Option (List Vrp) → Outcome (List Vrp × Bool)
diff_at none = panic
diff_at (some d) = done (d, true)

-- GetVRPsSerialDiff and getVRPsSerialDiff
unfoldable pub get_vrps_serial_diff : Server → ℕ → Outcome (List Vrp × Bool)
unfolding diff_at
get_vrps_serial_diff s serial =
    if serial == s.vrp_current_serial
    then done ([], true)
    else elim (lookup serial s.vrp_map_serial) [
      | none ↦ done ([], false)
      | some index ↦ diff_at (get_elem_ℤ? s.vrp_list_diff index)
    ]

-- GetCurrentSerial and getCurrentSerial. The session that it is given is not looked at.
unfoldable pub get_current_serial : Server → ℕ → ℕ × Bool
get_current_serial s sess_id = (s.vrp_current_serial, ltb 0 (length s.vrp_list_serial))

-- GenerateSerial and generateSerial
unfoldable pub generate_serial : Server → ℕ
generate_serial s =
    if not s.manualserial && ltb 0 (length s.vrp_list_serial)
    then u32 (get_or s.vrp_list_serial (length s.vrp_list_serial - 1) 0 + 1)
    else s.vrp_current_serial

-- SetSerial and setSerial
unfoldable pub set_serial : Server → ℕ → Server
set_serial s serial = record s { vrp_current_serial = serial }

-- how many of the oldest serials addSerial takes off
unfoldable pub remove_count : Server → ℕ
remove_count s =
    if leb s.keep_diff (length s.vrp_list_serial) && ltb 0 s.keep_diff
    then length s.vrp_list_serial - s.keep_diff
    else 0

-- The serials that are taken off, and the server.
unfoldable pub add_serial : Server → ℕ → List ℕ × Server
unfolding remove_count
add_serial s serial =
    let remove_diff = remove_count s in
    (
      take remove_diff s.vrp_list_serial,
      record s { vrp_list_serial = drop remove_diff s.vrp_list_serial ++ (serial ∷ []) },
    )

-- `nextDiff[len(removed):]` never starts behind the end, as there are as many diffs as serials.
unfoldable pub trim_diffs : ℕ → ℕ → List (List Vrp) → List (List Vrp)
trim_diffs keep_diff removed next_diff =
    if leb keep_diff (length next_diff) && ltb 0 keep_diff
    then drop removed next_diff
    else next_diff

-- the indices of the diffs that stay move down by the number of those that are taken off
unfoldable pub shift_indices : ℕ → ℕ → GoMap ℕ ℤ → GoMap ℕ ℤ
shift_indices curserial removed m =
    if ltb 0 removed then update_all (λ k v. if k == curserial then v else sub_ℕ v removed) m else m

unfoldable pub delete_all : List ℕ → GoMap ℕ ℤ → GoMap ℕ ℤ
delete_all [] m = m
delete_all (serial ∷ removed) m = delete_all removed (delete serial m)

module _ (ipnet_string : IpNet → Text) where
  unfoldable pub apply_to_all : List Vrp → List (List Vrp) → List (List Vrp)
  apply_to_all diff [] = []
  apply_to_all diff (prev_vrps ∷ rest) =
      apply_diff ipnet_string diff prev_vrps ∷ apply_to_all diff rest

  unfoldable pub add_vrps_diff : Server → List Vrp → Server
  unfolding apply_to_all shift_indices delete_all
  add_vrps_diff s diff =
      let new_vrp_current = apply_diff ipnet_string diff s.vrp_current in
      let curserial = s.vrp_current_serial in
      let newserial = generate_serial s in
      let (removed, s') = add_serial s newserial in
      let all_diffs = apply_to_all diff s.vrp_list_diff ++ (diff ∷ []) in
      let next_diff = trim_diffs s.keep_diff (length removed) all_diffs in
      let indexed = insert curserial (sub_ℕ (pos (length next_diff)) 1) s.vrp_map_serial in
      record s' {
        vrp_map_serial = delete_all removed (shift_indices curserial (length removed) indexed);
        vrp_list_diff = next_diff;
        vrp_current = new_vrp_current;
        vrp_current_serial = newserial;
      }

  unfoldable pub add_vrps : Server → List Vrp → Server
  add_vrps s vrps =
      let (added, removed, unchanged) = compute_diff ipnet_string vrps s.vrp_current in
      add_vrps_diff s (added ++ removed)

  -- one call of AddVRPs after the other
  unfoldable pub add_all : Server → List (List Vrp) → Server
  add_all s [] = s
  add_all s (vrps ∷ updates) = add_all (add_vrps s vrps) updates
