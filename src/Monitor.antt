-- ===== src/Monitor.antt =====
-- cmd/rtrmon/rtrmon.go: a router that monitors a server, and the comparison of two of them.
pub mod Router
pub mod InStep
pub mod Grace
pub mod Link
pub mod Compare
pub mod Connect
pub mod Refresh
pub mod Turns
pub mod System
pub mod Thresholds
pub mod Files
use stayrtr.Prelude.{
  ℕ, zero, suc, ◌+◌, Bool, true, false, not, ◌&&◌, Option, none, some, List, [], ◌∷◌, ◌++◌, Text,
  codes, decimal, u8, leb, ◌==◌, if◌then◌else◌, GoMap, text_keys, lookup, insert, delete,
}
use stayrtr.Net.{IpNet}
use stayrtr.Pdu.{
  Pdu, serial_notify, cache_response, ipv4_prefix, ipv6_prefix, end_of_data, cache_reset,
  flag_added,
}
use stayrtr.Prefixfile.{VrpJson, get_asn2, get_prefix2}

pub record VrpJsonSimple : Type 0 where
  pub asn : ℕ
  pub length : ℕ
  pub prefix : Text
  pub first_seen : ℕ
  pub last_seen : ℕ

abbrev pub VrpMap : Type 0
VrpMap = GoMap Text VrpJsonSimple

-- What the struct Client keeps of its session. Times are seconds.
pub record MonitorClient : Type 0 where
  pub vrps_rtr : VrpMap
  pub vrps : VrpMap
  pub serial : ℕ
  pub session_id : ℕ
  pub break_rtr : Bool
  pub rtr_refresh : ℕ
  pub rtr_retry : ℕ
  pub rtr_expire : ℕ
  pub last_update : ℕ

module _ (ipnet_string : IpNet → Text) where
  unfoldable pub monitor_key : IpNet → ℕ → ℕ → Text
  monitor_key prefix max_len asn =
      ipnet_string prefix ++ (codes "-" ++ (decimal max_len ++ (codes "-" ++ decimal asn)))

  -- the case of a prefix PDU, which is the same for both families
  unfoldable pub handle_prefix : MonitorClient → ℕ → IpNet → ℕ → ℕ → ℕ → MonitorClient
  handle_prefix c now prefix max_len asn flags =
      let vrp : VrpJsonSimple = record {
        prefix = ipnet_string prefix;
        asn = asn;
        length = max_len;
        first_seen = now;
        last_seen = 0;
      } in
      let key = monitor_key prefix max_len asn in
      if flags == flag_added
      then record c { vrps_rtr = insert key vrp c.vrps_rtr }
      else record c { vrps_rtr = delete key c.vrps_rtr }

  -- HandlePDU at the time `now`, without the message to the comparator: the client, and whether the
  -- session is disconnected.
  unfoldable pub monitor_pdu : MonitorClient → ℕ → Pdu → MonitorClient × Bool
  monitor_pdu c now (ipv4_prefix p) = (handle_prefix c now p.prefix p.max_len p.asn p.flags, false)
  monitor_pdu c now (ipv6_prefix p) = (handle_prefix c now p.prefix p.max_len p.asn p.flags, false)
  monitor_pdu c now (end_of_data p) = (
    record c {
      serial = p.serial_number;
      vrps = c.vrps_rtr;
      rtr_refresh = p.refresh_interval;
      rtr_retry = p.retry_interval;
      rtr_expire = p.expire_interval;
      last_update = now;
    },
    c.break_rtr,
  )
  monitor_pdu c now (cache_response p) = (record c { session_id = p.session_id }, false)
  monitor_pdu c now (cache_reset p) = (c, false)
  monitor_pdu c now (serial_notify p) = (c, false)
  monitor_pdu c now _ = (c, true)

  -- one PDU after the other, all at the time `now`
  unfoldable pub monitor_all : MonitorClient → ℕ → List Pdu → MonitorClient
  monitor_all c now [] = c
  monitor_all c now (pdu ∷ pdus) = monitor_all (monitor_pdu c now pdu).0 now pdus

-- Diff: what is only in the first map
unfoldable pub only_in_first : VrpMap → VrpMap → List VrpJsonSimple
only_in_first [] b = []
only_in_first ((key, vrp) ∷ a) b =
    let rest = only_in_first a b in elim (lookup key b) [ none ↦ vrp ∷ rest | some _ ↦ rest ]

unfoldable pub count_first_seen_on_or_before : List VrpJsonSimple → ℕ → ℕ
count_first_seen_on_or_before [] threshold_timestamp = 0
count_first_seen_on_or_before (vrp ∷ vrps) threshold_timestamp =
    let rest = count_first_seen_on_or_before vrps threshold_timestamp in
    if leb vrp.first_seen threshold_timestamp then suc rest else rest

unfoldable pub first_seen_of : ℕ → Option VrpJsonSimple → ℕ
first_seen_of now none = now
first_seen_of now (some current_entry) = current_entry.first_seen

-- one entry of the loop that copies what is within the grace period; the test is
-- `LastSeen >= now - grace`, on numbers that may be negative in the code
unfoldable pub grace_one : ℕ → ℕ → VrpMap × ℕ → Text → VrpJsonSimple → VrpMap × ℕ
grace_one grace_period now (res, in_grace_period) k entry = elim (lookup k res) [
  | some _ ↦ (res, in_grace_period)
  | none ↦
      if leb now (entry.last_seen + grace_period)
      then (insert k entry res, suc in_grace_period)
      else (res, in_grace_period)
]

unfoldable pub grace_loop : ℕ → ℕ → VrpMap × ℕ → VrpMap → VrpMap × ℕ
grace_loop grace_period now st [] = st
grace_loop grace_period now st ((k, entry) ∷ current_vrps) =
    grace_loop grace_period now (grace_one grace_period now st k entry) current_vrps

module _ (ipnet_string : IpNet → Text) (parse_cidr : Text → Option IpNet)
    (uint32_of_float : ℕ → ℕ) where
  -- one turn of the first loop of BuildNewVrpMap
  unfoldable pub build_one : VrpMap → ℕ → VrpMap → VrpJson → VrpMap
  unfolding first_seen_of
  build_one current_vrps now res vrp = elim (get_asn2 parse_cidr uint32_of_float vrp) [
    | none ↦ res
    | some asn ↦ elim (get_prefix2 parse_cidr uint32_of_float vrp) [
      | none ↦ res
      | some prefix ↦
          let key = monitor_key ipnet_string prefix vrp.length asn in
          insert key
            (record {
              prefix = ipnet_string prefix;
              asn = asn;
              length = vrp.length;
              first_seen = first_seen_of now (lookup key current_vrps);
              last_seen = now;
            })
            res
    ]
  ]

  unfoldable pub build_loop : VrpMap → ℕ → VrpMap → List VrpJson → VrpMap
  build_loop current_vrps now res [] = res
  build_loop current_vrps now res (vrp ∷ new_vrps) =
      build_loop current_vrps now (build_one current_vrps now res vrp) new_vrps

  -- BuildNewVrpMap: the new map, and the number of entries within the grace period.
  unfoldable pub build_new_vrp_map : ℕ → VrpMap → List VrpJson → ℕ → VrpMap × ℕ
  build_new_vrp_map grace_period current_vrps new_vrps now =
      grace_loop grace_period now (build_loop current_vrps now [] new_vrps, 0) current_vrps
