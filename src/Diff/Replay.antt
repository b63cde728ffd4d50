-- ===== src/Diff/Replay.antt =====
-- What a router makes of a diff. A router holds the VRPs that were announced to it and not
-- withdrawn: each entry of a diff sets or clears its key, in the order in which it is sent.
use stayrtr.Prelude.{
  ◌≡◌, refl, arith, Bool, true, false, Option, none, some, List, [], ◌∷◌, Text, text_eq,
  if◌then◌else◌, ◌==◌,
}
use stayrtr.Net.{IpNet}
use stayrtr.Pdu.{flag_added}
use stayrtr.Vrp.{Vrp, hash_key}
use stayrtr.Vrp.Last.{last_with}

-- The set of keys that a router holds.
abbrev pub View : Type 0
View = Text → Bool

abbrev pub announced : Option Vrp → Bool → Bool
announced none held = held
announced (some v) held = v.flags == flag_added

abbrev pub is_some : Option Vrp → Bool
is_some none = false
is_some (some v) = true

module _ (ipnet_string : IpNet → Text) where
  unfoldable pub replay : List Vrp → View → View
  replay [] s = s
  replay (v ∷ d) s =
      replay d (λ k. if text_eq (hash_key ipnet_string v) k then v.flags == flag_added else s k)

  -- The keys of a list of VRPs.
  abbrev pub holds : List Vrp → View
  holds l k = is_some (last_with ipnet_string k l)

  -- The last entry for a key decides.
  pub replay-last_with :
      (d : List Vrp) (s : View) (k : Text)
      → replay d s k ≡ announced (last_with ipnet_string k d) (s k)
  unfolding replay last_with
  replay-last_with [] s k = refl
  replay-last_with (v ∷ d) s k = ground (
    arith,
    replay-last_with d
        (λ j. if text_eq (hash_key ipnet_string v) j then v.flags == flag_added else s j) k,
  )
