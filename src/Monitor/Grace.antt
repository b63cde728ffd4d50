-- ===== src/Monitor/Grace.antt =====
-- What BuildNewVrpMap keeps of the map before it (cmd/rtrmon/rtrmon.go).
use stayrtr.Prelude.{
  ℕ, ◌+◌, ◌≡◌, refl, arith, ap, ◌∙◌, sym, Option, none, some, List, [], ◌∷◌, Text, text_eq,
  text_eq_iff, leb, if◌then◌else◌, text_keys, lookup, insert, lookup-insert, Bool-cases,
  Option-cases, inl, inr,
}
use stayrtr.Net.{IpNet}
use stayrtr.Prefixfile.{VrpJson, get_asn2, get_prefix2}
use stayrtr.Monitor.{
  VrpJsonSimple, VrpMap, monitor_key, first_seen_of, build_one, build_loop, grace_one, grace_loop,
  build_new_vrp_map,
}

-- No key is in the map twice.
abbrev pub IsMap : VrpMap → Type 0
IsMap [] = Unit
IsMap ((k, v) ∷ m) = (lookup k m ≡ none) × IsMap m

-- An old entry, if it is within the grace period.
abbrev pub in_grace : ℕ → ℕ → Option VrpJsonSimple → Option VrpJsonSimple
in_grace grace_period now none = none
in_grace grace_period now (some e) = if leb now (e.last_seen + grace_period) then some e else none

abbrev pub prefer : Option VrpJsonSimple → Option VrpJsonSimple → Option VrpJsonSimple
prefer (some e) o = some e
prefer none o = o

module _ (grace_period now : ℕ) (k : Text) where
  grace_one-lookup :
      (st : VrpMap × ℕ) (j : Text) (e : VrpJsonSimple)
      → lookup k (grace_one grace_period now st j e).0 ≡ (
          if text_eq j k
          then prefer (lookup k st.0) (in_grace grace_period now (some e))
          else lookup k st.0)
  unfolding grace_one
  grace_one-lookup (res, n) j e = elim (Option-cases (lookup j res)) [
    | inr (x, p) ↦ rw (p, grace_one) (ground (arith, p, text_eq_iff j k))
    | inl p ↦ elim (Bool-cases (leb now (e.last_seen + grace_period))) [
      | inl q ↦ rw (p, q, grace_one) (ground (arith, p, text_eq_iff j k, lookup-insert j k e res))
      | inr q ↦ rw (p, q, grace_one) (ground (arith, p, text_eq_iff j k))
    ]
  ]

  grace_loop-lookup :
      (m : VrpMap) (st : VrpMap × ℕ)
      → IsMap m
      → lookup k (grace_loop grace_period now st m).0
        ≡ prefer (lookup k st.0) (in_grace grace_period now (lookup k m))
  unfolding grace_loop lookup
  grace_loop-lookup [] st h = ground arith
  grace_loop-lookup ((j, e) ∷ m) st (fresh, h) = ground (
    arith,
    fresh,
    text_eq_iff j k,
    grace_one-lookup st j e,
    grace_loop-lookup m (grace_one grace_period now st j e) h,
  )

abbrev first_or : ℕ → Option VrpJsonSimple → ℕ
first_or n none = n
first_or n (some e) = e.first_seen

abbrev last_or : ℕ → Option VrpJsonSimple → ℕ
last_or n none = n
last_or n (some e) = e.last_seen

module _ (ipnet_string : IpNet → Text) (parse_cidr : Text → Option IpNet) (uint32_of_float : ℕ → ℕ)
    (now : ℕ) (current_vrps : VrpMap) (k : Text) where
  -- an entry of the new list: seen first when it was first seen before, and last now
  abbrev IsUpdated : Option VrpJsonSimple → Type 0
  IsUpdated o =
      (e : VrpJsonSimple)
      → o ≡ some e
      → (e.first_seen ≡ first_seen_of now (lookup k current_vrps)) × (e.last_seen ≡ now)

  insert-IsUpdated :
      (res : VrpMap) (j : Text) (x : VrpJsonSimple)
      → x.first_seen ≡ first_seen_of now (lookup j current_vrps)
      → x.last_seen ≡ now
      → IsUpdated (lookup k res)
      → IsUpdated (lookup k (insert j x res))
  insert-IsUpdated res j x first last h e found = elim (Bool-cases (text_eq j k)) [
    | inl t ↦
        let at_k : some x ≡ some e = (rw t at (sym (lookup-insert j k x res))) ∙ found in
        let same : j ≡ k = (text_eq_iff j k).0 t in
        (
          sym (ap (first_or 0) at_k)
              ∙ first
              ∙ ap (λ i. first_seen_of now (lookup i current_vrps)) same,
          sym (ap (last_or 0) at_k) ∙ last,
        )
    | inr t ↦ h e ((rw t at (sym (lookup-insert j k x res))) ∙ found)
  ]

  build_one-IsUpdated :
      (res : VrpMap) (vrp : VrpJson)
      → IsUpdated (lookup k res)
      → IsUpdated
          (lookup k (build_one ipnet_string parse_cidr uint32_of_float current_vrps now res vrp))
  unfolding build_one
  build_one-IsUpdated res vrp h = elim (Option-cases (get_asn2 parse_cidr uint32_of_float vrp)) [
    | inl p ↦ rw (p, build_one) h
    | inr (asn, p) ↦ elim (Option-cases (get_prefix2 parse_cidr uint32_of_float vrp)) [
      | inl q ↦ rw (p, q, build_one) h
      | inr (prefix, q) ↦
          rw (p, q, build_one)
            (insert-IsUpdated res (monitor_key ipnet_string prefix vrp.length asn) _ refl refl h)
    ]
  ]

  build_loop-IsUpdated :
      (new_vrps : List VrpJson) (res : VrpMap)
      → IsUpdated (lookup k res)
      → IsUpdated (
          lookup k
            (build_loop ipnet_string parse_cidr uint32_of_float current_vrps now res new_vrps))
  unfolding build_loop
  build_loop-IsUpdated [] res h = h
  build_loop-IsUpdated (vrp ∷ new_vrps) res h =
      build_loop-IsUpdated new_vrps
        (build_one ipnet_string parse_cidr uint32_of_float current_vrps now res vrp)
        (build_one-IsUpdated res vrp h)

  -- For each key, where no key is in the old map twice: the new map has the entry that the first loop
  -- made from the new list, if it made one, and such an entry was first seen when the old map's entry
  -- was, or else now, and last seen now; if it made none, the new map has the old map's entry if that is
  -- within the grace period, and else none.
  pub build_new_vrp_map-lookup :
      (grace_period : ℕ) (new_vrps : List VrpJson)
      → IsMap current_vrps
      → let new = build_loop ipnet_string parse_cidr uint32_of_float current_vrps now [] new_vrps in
        (lookup k
            (build_new_vrp_map ipnet_string parse_cidr uint32_of_float grace_period current_vrps
              new_vrps now).0
          ≡ prefer (lookup k new) (in_grace grace_period now (lookup k current_vrps)))
        × ((e : VrpJsonSimple)
            → lookup k new ≡ some e
            → (e.first_seen ≡ first_seen_of now (lookup k current_vrps)) × (e.last_seen ≡ now))
  unfolding build_new_vrp_map lookup
  build_new_vrp_map-lookup grace_period new_vrps h = (
    grace_loop-lookup grace_period now k current_vrps _ h,
    build_loop-IsUpdated new_vrps [] (λ e found. cc),
  )
