-- ===== src/Monitor/Compare.antt =====
-- cmd/rtrmon/rtrmon.go: the comparator, which compares its two clients each time that one of them
-- has new data.
pub mod Same
pub mod OneOff
pub mod Agree
pub mod Served
pub mod Gauges
use stayrtr.Prelude.{
  ℕ, zero, suc, ◌+◌, ◌-◌, Bool, true, false, ◌&&◌, ◌||◌, Option, none, some, List, [], ◌∷◌, Text,
  length, leb, ◌==◌, if◌then◌else◌,
}
use stayrtr.Monitor.{
  VrpJsonSimple, VrpMap, MonitorClient, only_in_first, count_first_seen_on_or_before,
}

-- The struct diffMetadata.
pub record DiffMetadata : Type 0 where
  pub last_fetch : ℕ
  pub url : Text
  pub serial : ℕ
  pub session_id : ℕ
  pub count : ℕ
  pub rtr_refresh : ℕ
  pub rtr_retry : ℕ
  pub rtr_expire : ℕ

-- GetData of a client with the path `path`
unfoldable pub get_data : Text → MonitorClient → VrpMap × DiffMetadata
get_data path c = (
  c.vrps,
  record {
    last_fetch = c.last_update;
    url = path;
    serial = c.serial;
    session_id = c.session_id;
    count = length c.vrps;
    rtr_refresh = c.rtr_refresh;
    rtr_retry = c.rtr_retry;
    rtr_expire = c.rtr_expire;
  },
)

-- What the struct Comparator keeps of its last comparison, with its flag and the paths of its clients.
-- `none` is the nil slice and the nil pointer.
pub record Comparator : Type 0 where
  pub primary_path : Text
  pub secondary_path : Text
  pub one_off : Bool
  pub only_in1 : Option (List VrpJsonSimple)
  pub only_in2 : Option (List VrpJsonSimple)
  pub md1 : Option DiffMetadata
  pub md2 : Option DiffMetadata

-- NewComparator, for clients with these paths
unfoldable pub new_comparator : Text → Text → Comparator
new_comparator primary_path secondary_path = record {
  primary_path = primary_path;
  secondary_path = secondary_path;
  one_off = false;
  only_in1 = none;
  only_in2 = none;
  md1 = none;
  md2 = none;
}

-- What a select of Compare receives: the end, or the id of a client that has finished, and the two
-- clients as they are then.
pub data Event : Type 0 where
  quit : Event
  finished : ℕ → MonitorClient → MonitorClient → Event

-- The comparator and the variables of Compare.
pub record Comparing : Type 0 where
  pub comparator : Comparator
  pub done_primary : Bool
  pub done_secondary : Bool
  pub stop : Bool

-- the comparator after the comparison of its two clients
unfoldable pub compare_clients : Comparator → MonitorClient → MonitorClient → Comparator
compare_clients c primary secondary =
    let (vrps1, md1) = get_data c.primary_path primary in
    let (vrps2, md2) = get_data c.secondary_path secondary in
    record c {
      only_in1 = some (only_in_first vrps1 vrps2);
      only_in2 = some (only_in_first vrps2 vrps1);
      md1 = some md1;
      md2 = some md2;
    }

-- The body of the loop of Compare, without its metrics.
unfoldable pub compare_one : Comparing → Event → Comparing
compare_one st quit = record st { stop = true }
compare_one st (finished id primary secondary) =
    let done_primary = if id == 1 then true else st.done_primary in
    let done_secondary =
      if id == 1 then st.done_secondary else (if id == 2 then true else st.done_secondary) in
    record {
      comparator = compare_clients st.comparator primary secondary;
      done_primary = done_primary;
      done_secondary = done_secondary;
      stop = if st.comparator.one_off && (done_primary && done_secondary) then true else st.stop;
    }

-- the loop of Compare, on what it receives
unfoldable pub compare_loop : Comparing → List Event → Comparing
compare_loop st [] = st
compare_loop st (event ∷ events) =
    let next = compare_loop (compare_one st event) events in if st.stop then st else next

-- Compare
unfoldable pub compare : Comparator → List Event → Comparing
compare c events =
    compare_loop
      (record { comparator = c; done_primary = false; done_secondary = false; stop = false }) events
