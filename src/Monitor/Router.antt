-- ===== src/Monitor/Router.antt =====
-- The monitor as the router of a server: what it holds after a whole answer (cmd/rtrmon/rtrmon.go).
use stayrtr.Prelude.{
  ℕ, ◌≡◌, ◌≢◌, refl, arith, ◌∙◌, Bool, true, false, Option, none, some, List, [], ◌∷◌, ◌++◌, Text,
  text_eq, ◌==◌, if◌then◌else◌, text_keys, lookup, lookup-insert, lookup-delete, All, Bool-cases,
  Option-cases, inl, inr,
}
use stayrtr.Net.{IpNet, to4, to16}
use stayrtr.Pdu.{Pdu, set_version, flag_added}
use stayrtr.Vrp.{Vrp, hash_key}
use stayrtr.Vrp.Last.{last_with}
use stayrtr.Diff.Replay.{View, replay, replay-last_with}
use stayrtr.Client.{Client, vrp_pdu}
use stayrtr.Client.Answers.{vrp_pdus, data_answer}
use stayrtr.Monitor.{
  VrpJsonSimple, VrpMap, MonitorClient, monitor_key, handle_prefix, monitor_pdu, monitor_all,
}

-- The keys of a map.
abbrev is_entry : Option VrpJsonSimple → Bool
is_entry none = false
is_entry (some _) = true

abbrev pub keys_of : VrpMap → View
keys_of m k = is_entry (lookup k m)

-- The address of a VRP is an IPv4 or an IPv6 address.
abbrev pub HasFamily : Vrp → Type 0
HasFamily v = to16 v.prefix.ip ≢ none

module _ (ipnet_string : IpNet → Text) (now version : ℕ) where
  abbrev after_prefix : MonitorClient → Vrp → MonitorClient
  after_prefix c v = handle_prefix ipnet_string c now v.prefix v.max_len v.asn v.flags

  monitor_all-step :
      (c : MonitorClient) (v : Vrp) (d : List Vrp)
      → HasFamily v
      → monitor_all ipnet_string c now (vrp_pdus version (v ∷ d))
        ≡ monitor_all ipnet_string (after_prefix c v) now (vrp_pdus version d)
  unfolding monitor_all monitor_pdu vrp_pdu set_version
  monitor_all-step c v d h = elim (Option-cases (to4 v.prefix.ip)) [
    | inr (x, e) ↦ rw (vrp_pdus, vrp_pdu, e) refl
    | inl e ↦ elim (Option-cases (to16 v.prefix.ip)) [
      | inr (x, e2) ↦ rw (vrp_pdus, vrp_pdu, e, e2) refl
      | inl e2 ↦ absurd (h e2)
    ]
  ]

  keys_of-after_prefix :
      (c : MonitorClient) (v : Vrp) (k : Text)
      → keys_of (after_prefix c v).vrps_rtr k ≡ (
          if text_eq (hash_key ipnet_string v) k
          then v.flags == flag_added
          else keys_of c.vrps_rtr k)
  unfolding handle_prefix monitor_key hash_key
  keys_of-after_prefix c v k =
      let key = hash_key ipnet_string v in
      elim (Bool-cases (v.flags == flag_added)) [
        | inl e ↦
            rw (e, handle_prefix)
              (ground (
                arith,
                lookup-insert key k
                    (record {
                      prefix = ipnet_string v.prefix;
                      asn = v.asn;
                      length = v.max_len;
                      first_seen = now;
                      last_seen = 0;
                    })
                    c.vrps_rtr,
              ))
        | inr e ↦ rw (e, handle_prefix) (ground (arith, lookup-delete key k c.vrps_rtr))
      ]

  -- After the prefix PDUs of a diff, the monitor holds what a router makes of the diff.
  monitor_all-replay :
      (d : List Vrp) (c : MonitorClient) (k : Text)
      → All HasFamily d
      → keys_of (monitor_all ipnet_string c now (vrp_pdus version d)).vrps_rtr k
        ≡ replay ipnet_string d (keys_of c.vrps_rtr) k
  unfolding monitor_all replay last_with
  monitor_all-replay [] c k h = refl
  monitor_all-replay (v ∷ d) c k (h, hs) = rw (monitor_all-step c v d h) (
      monitor_all-replay d (after_prefix c v) k hs
      ∙ ground (
        arith,
        keys_of-after_prefix c v k,
        replay-last_with ipnet_string d (keys_of (after_prefix c v).vrps_rtr) k,
        replay-last_with ipnet_string (v ∷ d) (keys_of c.vrps_rtr) k,
      ))

  pub monitor_all-append :
      (xs ys : List Pdu) (c : MonitorClient)
      → monitor_all ipnet_string c now (xs ++ ys)
        ≡ monitor_all ipnet_string (monitor_all ipnet_string c now xs) now ys
  unfolding monitor_all
  monitor_all-append [] ys c = refl
  monitor_all-append (x ∷ xs) ys c = monitor_all-append xs ys (monitor_pdu ipnet_string c now x).0

-- A monitor that takes in a whole answer with data notes the answer's serial, and for each key it has
-- the key exactly if a router that held the monitor's VRPs and takes in the answer's VRPs has it. This
-- is of VRPs whose addresses are of one of the two families.
pub monitor_takes_answer :
    (ipnet_string : IpNet → Text) (now session_id serial : ℕ) (d : List Vrp) (router : Client)
    (c : MonitorClient)
    → All HasFamily d
    → let c' = monitor_all ipnet_string c now (data_answer router session_id serial d) in
      (c'.serial ≡ serial)
      × ((k : Text) → keys_of c'.vrps k ≡ replay ipnet_string d (keys_of c.vrps_rtr) k)
unfolding monitor_all monitor_pdu set_version
monitor_takes_answer ipnet_string now session_id serial d router c h =
    let noted = record c { session_id = session_id } in
    rw (monitor_all-append ipnet_string now router.version (vrp_pdus router.version d) _ noted)
      (refl, λ k. monitor_all-replay ipnet_string now router.version d noted k h)
