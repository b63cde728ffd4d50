-- ===== src/Monitor/System/Settles.antt =====
-- Compare catches up with the two clients (cmd/rtrmon/rtrmon.go).
use stayrtr.Prelude.{
  ℕ, ◌≡◌, refl, ap, Bool, false, Option, Text, Bool-cases, Option-cases, inl, inr, ◌==◌,
}
use stayrtr.Prelude.Options.{or_nothing}
use stayrtr.Net.{IpNet}
use stayrtr.Pdu.{
  Pdu, serial_notify, serial_query, reset_query, cache_response, ipv4_prefix, ipv6_prefix,
  end_of_data, cache_reset, router_key, error_report, flag_added,
}
use stayrtr.Prefixfile.{VrpList}
use stayrtr.Fetch.{FetchConfig, Fetched, fetched, failed, fetch_file}
use stayrtr.Monitor.{MonitorClient, VrpMap, monitor_pdu, handle_prefix, only_in_first}
use stayrtr.Monitor.Files.{take_fetched, fetch_turn}
use stayrtr.Monitor.Link.{new_monitor_client}
use stayrtr.Monitor.Compare.{DiffMetadata, get_data, Comparator, new_comparator}
use stayrtr.Monitor.Compare.Served.{serve_diff}
use stayrtr.Monitor.System.{
  reports, selecting, has_first, compare_taken, System, begin, Acts, reads, fetches, Compares,
  receives_first, receives_second, takes, finishes, Moves, first_acts, second_acts, compares, Reach,
  begun, moved,
}

-- What is served are the two differences of these maps.
abbrev pub Serves : Comparator → VrpMap → VrpMap → Type 0
Serves c v1 v2 =
    (or_nothing (serve_diff c).only_in_primary ≡ only_in_first v1 v2)
    × (or_nothing (serve_diff c).only_in_secondary ≡ only_in_first v2 v1)

module _ (ipnet_string : IpNet → Text) (parse_cidr : Text → Option IpNet) (uint32_of_float : ℕ → ℕ)
    (parse_http_time : Text → Option ℕ) (decode_json : Text → Option VrpList)
    (grace_period : ℕ) where
  -- A prefix PDU leaves the map that is compared as it is.
  prefix-vrps :
      (c : MonitorClient) (now : ℕ) (prefix : IpNet) (max_len asn flags : ℕ)
      → (handle_prefix ipnet_string c now prefix max_len asn flags).vrps ≡ c.vrps
  unfolding handle_prefix
  prefix-vrps c now prefix max_len asn flags = elim (Bool-cases (flags == flag_added)) [
    | inl e ↦ rw (e, handle_prefix) refl
    | inr e ↦ rw (e, handle_prefix) refl
  ]

  -- A PDU that is not reported leaves the map as it is.
  pdu-vrps :
      (c : MonitorClient) (now : ℕ) (pdu : Pdu)
      → reports pdu ≡ false
      → (monitor_pdu ipnet_string c now pdu).0.vrps ≡ c.vrps
  unfolding monitor_pdu reports
  pdu-vrps c now (ipv4_prefix p) e = prefix-vrps c now p.prefix p.max_len p.asn p.flags
  pdu-vrps c now (ipv6_prefix p) e = prefix-vrps c now p.prefix p.max_len p.asn p.flags
  pdu-vrps c now (end_of_data p) e = cc
  pdu-vrps c now (cache_response p) e = refl
  pdu-vrps c now (cache_reset p) e = refl
  pdu-vrps c now (serial_notify p) e = refl
  pdu-vrps c now (serial_query p) e = refl
  pdu-vrps c now (reset_query p) e = refl
  pdu-vrps c now (router_key p) e = refl
  pdu-vrps c now (error_report p) e = refl

  fetched-vrps :
      (c : MonitorClient) (now : ℕ) (result : Fetched)
      → let (c', told) =
          take_fetched ipnet_string parse_cidr uint32_of_float parse_http_time decode_json
            grace_period c now result in
        told ≡ false → c'.vrps ≡ c.vrps
  unfolding take_fetched
  fetched-vrps c now (failed e code lastrefresh) = λ quiet. refl
  fetched-vrps c now (fetched text code lastrefresh) = elim (Option-cases (decode_json text)) [
    | inl e ↦ rw (e, take_fetched) (λ quiet. refl)
    | inr (v, e) ↦ rw (e, take_fetched) (λ quiet. cc)
  ]

  Acts-vrps :
      {c : MonitorClient} {config : FetchConfig} {c' : MonitorClient} {config' : FetchConfig}
      {told : Bool}
      → Acts ipnet_string parse_cidr uint32_of_float parse_http_time decode_json grace_period c
          config c' config' told
      → told ≡ false
      → c'.vrps ≡ c.vrps
  unfolding fetch_turn
  Acts-vrps {c} (reads now pdu) quiet = pdu-vrps c now pdu quiet
  Acts-vrps {c} {config = config} (fetches outside now path) quiet =
      fetched-vrps c now (fetch_file parse_http_time config outside path).1 quiet

  abbrev MovesTo : System → System → Type 0
  MovesTo = Moves ipnet_string parse_cidr uint32_of_float parse_http_time decode_json grace_period

  abbrev ComparesTo : System → System → Type 0
  ComparesTo =
      Compares ipnet_string parse_cidr uint32_of_float parse_http_time decode_json grace_period

  -- Between two comparisons, if no client waits, what is served are the differences of the maps as they
  -- are; and if the first client does not wait, the data that was taken of it is its map.
  pub record IsCurrent (s : System) : Type 0 where
    pub settled :
        s.phase ≡ selecting
        → s.first_waits ≡ false
        → s.second_waits ≡ false
        → Serves s.comparator s.first.vrps s.second.vrps
    pub taken :
        (id : ℕ) (t : VrpMap × DiffMetadata)
        → s.phase ≡ has_first id t
        → s.first_waits ≡ false
        → t.0 ≡ s.first.vrps

  Compares-IsCurrent : {s t : System} → ComparesTo s t → IsCurrent s → IsCurrent t
  unfolding get_data compare_taken serve_diff
  Compares-IsCurrent (receives_first e w) h = record { settled = λ p. cc; taken = λ id t p. cc }
  Compares-IsCurrent (receives_second e w) h = record { settled = λ p. cc; taken = λ id t p. cc }
  Compares-IsCurrent {s} (takes id e) h = record { settled = λ p. cc; taken = λ id' t p w. cc }
  Compares-IsCurrent {s} (finishes id t e) h = record {
    settled = λ p w1 w2.
        let same = h.taken id t e w1 in
        (
          ap (λ v. only_in_first v s.second.vrps) same,
          ap (λ v. only_in_first s.second.vrps v) same,
        );
    taken = λ id' t' p. cc;
  }

  Moves-IsCurrent : {s t : System} → MovesTo s t → IsCurrent s → IsCurrent t
  Moves-IsCurrent {s} (first_acts w a) h = record {
    settled = λ p quiet w2. rw (Acts-vrps a quiet) (h.settled p w w2);
    taken = λ id t p quiet. rw (Acts-vrps a quiet) (h.taken id t p w);
  }
  Moves-IsCurrent {s} (second_acts w a) h = record {
    settled = λ p w1 quiet. rw (Acts-vrps a quiet) (h.settled p w1 w);
    taken = h.taken;
  }
  Moves-IsCurrent (compares c) h = Compares-IsCurrent c h

  -- In every state that the monitor comes to, in whichever order its two clients read PDUs or fetch
  -- files and Compare takes its steps: once Compare waits for an id and no client waits to send
  -- one, ServeDiff serves the two differences of the maps that the clients have; and between the two
  -- reads of a comparison, what was read of the first client is the map that it still has, if it
  -- does not wait.
  pub Reach-IsCurrent :
      {path1 path2 : Text} {break1 break2 : Bool} {config : FetchConfig} {s : System}
      → Reach ipnet_string parse_cidr uint32_of_float parse_http_time decode_json grace_period path1
          path2 break1 break2 config s
      → IsCurrent s
  unfolding begin new_monitor_client new_comparator serve_diff only_in_first
  Reach-IsCurrent begun = record { settled = λ p w1 w2. (refl, refl); taken = λ id t p. cc }
  Reach-IsCurrent (moved r m) = Moves-IsCurrent m (Reach-IsCurrent r)
