-- ===== src/Monitor/Files/Dates.antt =====
-- The dates of the entries of a monitor that fetches files (cmd/rtrmon/rtrmon.go, BuildNewVrpMap).
use stayrtr.Prelude.{
  ℕ, ◌+◌, ◌≤◌, ◌≡◌, refl, arith, ap, ◌∙◌, sym, Option, none, some, List, [], ◌∷◌, Text, text_keys,
  lookup, insert, lookup-insert, Option-cases, Bool-cases, inl, inr, leb, if◌then◌else◌, text_eq,
  text_eq_iff,
}
use stayrtr.Net.{IpNet}
use stayrtr.Prefixfile.{VrpJson, VrpList, get_asn2, get_prefix2}
use stayrtr.Fetch.{FetchConfig, Outside, Fetched, fetched, failed, fetch_file}
use stayrtr.Monitor.{
  VrpJsonSimple, VrpMap, MonitorClient, monitor_key, first_seen_of, build_one, build_loop,
  grace_one, grace_loop, build_new_vrp_map,
}
use stayrtr.Monitor.Grace.{IsMap, in_grace, prefer, build_new_vrp_map-lookup}
use stayrtr.Monitor.Files.{entries_of, take_fetched, fetch_turn, fetch_turns}

-- No entry was first seen after it was last seen, or seen after the time `t`.
abbrev pub IsDated : ℕ → VrpMap → Type 0
IsDated t m =
    (k : Text) (e : VrpJsonSimple)
    → lookup k m ≡ some e
    → (e.first_seen ≤ e.last_seen) × (e.last_seen ≤ t)

older : (t now : ℕ) (m : VrpMap) → IsDated t m → t ≤ now → IsDated now m
older t now m dated later k e found =
    let (first, last) = dated k e found in (first, omega (arith, last, later))

-- the times of the turns do not go back from `t`
abbrev pub IsAscending : ℕ → List (Outside × ℕ) → Type 0
IsAscending t [] = Unit
IsAscending t ((outside, now) ∷ turns) = (t ≤ now) × IsAscending now turns

-- the time of the last turn
abbrev pub end_of : ℕ → List (Outside × ℕ) → ℕ
end_of t [] = t
end_of t ((outside, now) ∷ turns) = end_of now turns

in_grace-some :
    (grace_period now : ℕ) (o : Option VrpJsonSimple) (e : VrpJsonSimple)
    → in_grace grace_period now o ≡ some e
    → o ≡ some e
in_grace-some grace_period now none e h = cc
in_grace-some grace_period now (some y) e h =
    elim (Bool-cases (leb now (y.last_seen + grace_period))) [
      | inl b ↦ sym (ap (λ c. if c then some y else none) b) ∙ h
      | inr b ↦ cc (sym (ap (λ c. if c then some y else none) b) ∙ h)
    ]

insert-IsMap : (k : Text) (v : VrpJsonSimple) (m : VrpMap) → IsMap m → IsMap (insert k v m)
unfolding lookup insert
insert-IsMap k v [] h = (refl, tt)
insert-IsMap k v ((j, w) ∷ m) (absent, h) = elim (Bool-cases (text_eq j k)) [
  | inl e ↦ rw (e, insert) (ground (arith, absent, e, text_eq_iff j k), h)
  | inr e ↦
      rw (e, insert)
        (
          ground (arith, absent, e, text_eq_iff j k, text_eq_iff k j, lookup-insert k j v m),
          insert-IsMap k v m h,
        )
]

grace_loop-IsMap :
    (grace_period now : ℕ) (m : VrpMap) (st : VrpMap × ℕ)
    → IsMap st.0
    → IsMap (grace_loop grace_period now st m).0
unfolding grace_loop grace_one
grace_loop-IsMap grace_period now [] st h = h
grace_loop-IsMap grace_period now ((k, e) ∷ m) (res, n) h =
    grace_loop-IsMap grace_period now m (grace_one grace_period now (res, n) k e) (one)
  where
    one : IsMap (grace_one grace_period now (res, n) k e).0
    one = elim (Option-cases (lookup k res)) [
      | inr (x, p) ↦ rw (p, grace_one) h
      | inl p ↦ elim (Bool-cases (leb now (e.last_seen + grace_period))) [
        | inl q ↦ rw (p, q, grace_one) (insert-IsMap k e res h)
        | inr q ↦ rw (p, q, grace_one) h
      ]
    ]

module _ (ipnet_string : IpNet → Text) (parse_cidr : Text → Option IpNet)
    (uint32_of_float : ℕ → ℕ) where
  build_loop-IsMap :
      (current : VrpMap) (now : ℕ) (new_vrps : List VrpJson) (res : VrpMap)
      → IsMap res
      → IsMap (build_loop ipnet_string parse_cidr uint32_of_float current now res new_vrps)
  unfolding build_loop build_one
  build_loop-IsMap current now [] res h = h
  build_loop-IsMap current now (vrp ∷ new_vrps) res h =
      build_loop-IsMap current now new_vrps
        (build_one ipnet_string parse_cidr uint32_of_float current now res vrp) (one)
    where
      one : IsMap (build_one ipnet_string parse_cidr uint32_of_float current now res vrp)
      one = elim (Option-cases (get_asn2 parse_cidr uint32_of_float vrp)) [
        | inl p ↦ rw (p, build_one) h
        | inr (asn, p) ↦ elim (Option-cases (get_prefix2 parse_cidr uint32_of_float vrp)) [
          | inl q ↦ rw (p, q, build_one) h
          | inr (prefix, q) ↦
              rw (p, q, build_one)
                (insert-IsMap (monitor_key ipnet_string prefix vrp.length asn) _ res h)
        ]
      ]

  module _ (grace_period : ℕ) where
    abbrev renewed : VrpMap → ℕ → List VrpJson → VrpMap
    renewed current now new_vrps =
        (build_new_vrp_map ipnet_string parse_cidr uint32_of_float grace_period current new_vrps
          now).0

    renewed-IsMap :
        (current : VrpMap) (now : ℕ) (new_vrps : List VrpJson)
        → IsMap (renewed current now new_vrps)
    unfolding build_new_vrp_map
    renewed-IsMap current now new_vrps =
        grace_loop-IsMap grace_period now current
          (build_loop ipnet_string parse_cidr uint32_of_float current now [] new_vrps, 0)
          (build_loop-IsMap current now new_vrps [] tt)

    -- the first sight of an entry that was there before, or is new
    first_seen_le :
        (t now : ℕ) (current : VrpMap) (k : Text)
        → IsDated t current
        → t ≤ now
        → first_seen_of now (lookup k current) ≤ now
    unfolding first_seen_of
    first_seen_le t now current k dated later = elim (Option-cases (lookup k current)) [
      | inl e ↦ rw e (omega arith)
      | inr (x, e) ↦ rw e (omega (arith, dated k x e, later))
    ]

    renewed-IsDated :
        (t now : ℕ) (current : VrpMap) (new_vrps : List VrpJson)
        → IsMap current
        → IsDated t current
        → t ≤ now
        → IsDated now (renewed current now new_vrps)
    renewed-IsDated t now current new_vrps map dated later k e found =
        let new = build_loop ipnet_string parse_cidr uint32_of_float current now [] new_vrps in
        let (place, fresh) =
          build_new_vrp_map-lookup ipnet_string parse_cidr uint32_of_float now current k
            grace_period new_vrps map in
        let old = in_grace grace_period now (lookup k current) in
        elim (Option-cases (lookup k new)) [
          | inr (x, p) ↦
              let made : lookup k new ≡ some e =
                p ∙ sym (ap (λ o. prefer o old) p) ∙ sym place ∙ found in
              let (first, last) = fresh e made in
              (
                omega (arith, first, last, first_seen_le t now current k dated later),
                omega (arith, last),
              )
          | inl p ↦
              let (first, last) = dated k e (
                in_grace-some grace_period now (lookup k current) e
                  (sym (ap (λ o. prefer o old) p) ∙ sym place ∙ found)) in
              (first, omega (arith, last, later))
        ]

    module _ (parse_http_time : Text → Option ℕ) (decode_json : Text → Option VrpList) where
      taken :
          (c : MonitorClient) (t now : ℕ) (result : Fetched)
          → IsMap c.vrps
          → IsDated t c.vrps
          → t ≤ now
          → let c' =
              (take_fetched ipnet_string parse_cidr uint32_of_float parse_http_time decode_json
                grace_period c now result).0 in
            IsMap c'.vrps × IsDated now c'.vrps
      unfolding take_fetched
      taken c t now (failed e code lastrefresh) map dated later =
          (map, older t now c.vrps dated later)
      taken c t now (fetched text code lastrefresh) map dated later =
          elim (Option-cases (decode_json text)) [
            | inl p ↦ rw (p, take_fetched) (map, older t now c.vrps dated later)
            | inr (decoded, p) ↦
                rw (p, take_fetched)
                  (
                    renewed-IsMap c.vrps now (entries_of decoded),
                    renewed-IsDated t now c.vrps (entries_of decoded) map dated later,
                  )
          ]

      -- Over any number of turns that fetch a file, at times that do not go back, and whatever the
      -- fetches meet: if no key is in the client's map twice, and no entry was first seen after it was last
      -- seen or seen after the start, then after them no key is in the map twice, and no entry was first
      -- seen after it was last seen or seen after the last turn.
      pub fetch_turns-IsDated :
          (turns : List (Outside × ℕ)) (st : MonitorClient × FetchConfig) (t : ℕ) (path : Text)
          → IsAscending t turns
          → IsMap st.0.vrps
          → IsDated t st.0.vrps
          → let c' =
              (fetch_turns ipnet_string parse_cidr uint32_of_float parse_http_time decode_json
                grace_period st turns path).0 in
            IsMap c'.vrps × IsDated (end_of t turns) c'.vrps
      unfolding fetch_turns fetch_turn
      fetch_turns-IsDated [] st t path times map dated = (map, dated)
      fetch_turns-IsDated ((outside, now) ∷ turns) (c, config) t path (later, times) map dated =
          let next =
            (fetch_turn ipnet_string parse_cidr uint32_of_float parse_http_time decode_json
              grace_period (c, config) outside now path).0 in
          let (map', dated') =
            taken c t now (fetch_file parse_http_time config outside path).1 map dated later in
          fetch_turns-IsDated turns next now path times map' dated'
