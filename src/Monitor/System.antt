-- ===== src/Monitor/System.antt =====
-- The monitor as a whole: its two clients and Compare, which run beside each other and meet on the
-- channel `comp`, which holds nothing (cmd/rtrmon/rtrmon.go, Comparator.Start).
pub mod Settles
pub mod CatchUp
use stayrtr.Prelude.{ℕ, ◌≡◌, Bool, true, false, some, Option, Text}
use stayrtr.Net.{IpNet}
use stayrtr.Pdu.{Pdu, end_of_data}
use stayrtr.Prefixfile.{VrpList}
use stayrtr.Fetch.{FetchConfig, Outside}
use stayrtr.Monitor.{VrpMap, MonitorClient, monitor_pdu, only_in_first}
use stayrtr.Monitor.Files.{fetch_turn}
use stayrtr.Monitor.Link.{new_monitor_client}
use stayrtr.Monitor.Compare.{DiffMetadata, get_data, Comparator, new_comparator}

-- Does HandlePDU send the client's id to the channel?
unfoldable pub reports : Pdu → Bool
reports (end_of_data p) = true
reports _ = false

-- Where the loop of Compare is: it waits in its select; it has received an id; or it has the data of
-- the first client too, and not yet that of the second.
pub data Phase : Type 0 where
  selecting : Phase
  received_id : ℕ → Phase
  has_first : ℕ → VrpMap × DiffMetadata → Phase

-- the comparator after a comparison, with the data of the first client that was taken before
unfoldable pub compare_taken : Comparator → VrpMap × DiffMetadata → MonitorClient → Comparator
compare_taken c (vrps1, md1) secondary =
    let (vrps2, md2) = get_data c.secondary_path secondary in
    record c {
      only_in1 = some (only_in_first vrps1 vrps2);
      only_in2 = some (only_in_first vrps2 vrps1);
      md1 = some md1;
      md2 = some md2;
    }

-- The two clients with the FetchConfig that they share, whether each of them waits until its id is
-- received, and Compare.
pub record System : Type 0 where
  pub first : MonitorClient
  pub second : MonitorClient
  pub config : FetchConfig
  pub first_waits : Bool
  pub second_waits : Bool
  pub phase : Phase
  pub comparator : Comparator

-- Start of the Comparator, with new clients that have these paths and leave their sessions at the
-- End of Data or not
unfoldable pub begin : Text → Text → Bool → Bool → FetchConfig → System
begin path1 path2 break1 break2 config = record {
  first = record new_monitor_client { break_rtr = break1 };
  second = record new_monitor_client { break_rtr = break2 };
  config = config;
  first_waits = false;
  second_waits = false;
  phase = selecting;
  comparator = new_comparator path1 path2;
}

module _ (ipnet_string : IpNet → Text) (parse_cidr : Text → Option IpNet) (uint32_of_float : ℕ → ℕ)
    (parse_http_time : Text → Option ℕ) (decode_json : Text → Option VrpList)
    (grace_period : ℕ) where
  abbrev fetch :
      MonitorClient → FetchConfig → Outside → ℕ → Text → (MonitorClient × FetchConfig) × Bool
  fetch c config outside now path =
      fetch_turn ipnet_string parse_cidr uint32_of_float parse_http_time decode_json grace_period
        (c, config) outside now path

  -- What a client does up to the next message to the channel, and whether it sends one.
  pub data Acts (c : MonitorClient) (config : FetchConfig)
      : MonitorClient → FetchConfig → Bool → Type 0 where
    reads :
        (now : ℕ) (pdu : Pdu)
        → Acts c config (monitor_pdu ipnet_string c now pdu).0 config (reports pdu)
    fetches :
        (outside : Outside) (now : ℕ) (path : Text)
        → Acts c config
            (fetch c config outside now path).0.0
            (fetch c config outside now path).0.1
            (fetch c config outside now path).1

  -- The steps of Compare.
  pub data Compares (s : System) : System → Type 0 where
    receives_first :
        s.phase ≡ selecting
        → s.first_waits ≡ true
        → Compares s (record s { first_waits = false; phase = received_id 1 })
    receives_second :
        s.phase ≡ selecting
        → s.second_waits ≡ true
        → Compares s (record s { second_waits = false; phase = received_id 2 })
    takes :
        (id : ℕ)
        → s.phase ≡ received_id id
        → Compares s
            (record s { phase = has_first id (get_data s.comparator.primary_path s.first) })
    finishes :
        (id : ℕ) (taken : VrpMap × DiffMetadata)
        → s.phase ≡ has_first id taken
        → Compares s
            (record s { phase = selecting; comparator = compare_taken s.comparator taken s.second })

  -- A step of the monitor: of one of its clients, if that does not wait, or of Compare.
  pub data Moves (s : System) : System → Type 0 where
    first_acts :
        {c : MonitorClient} {config : FetchConfig} {told : Bool}
        → s.first_waits ≡ false
        → Acts s.first s.config c config told
        → Moves s (record s { first = c; config = config; first_waits = told })
    second_acts :
        {c : MonitorClient} {config : FetchConfig} {told : Bool}
        → s.second_waits ≡ false
        → Acts s.second s.config c config told
        → Moves s (record s { second = c; config = config; second_waits = told })
    compares : {t : System} → Compares s t → Moves s t

  -- What the monitor can come to.
  pub data Reach (path1 path2 : Text) (break1 break2 : Bool) (config : FetchConfig)
      : System → Type 0 where
    begun : Reach path1 path2 break1 break2 config (begin path1 path2 break1 break2 config)
    moved :
        {s t : System}
        → Reach path1 path2 break1 break2 config s
        → Moves s t
        → Reach path1 path2 break1 break2 config t
