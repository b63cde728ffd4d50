-- ===== src/Diff/Merge.antt =====
-- ApplyDiff: a diff applied to the current list, and to an older diff.
use stayrtr.Prelude.{
  ℕ, ◌≡◌, ◌≤◌, arith, true, false, Option, none, some, List, Text, text_keys, Option-cases, ◌⊎◌,
  inl, inr,
}
use stayrtr.Net.{IpNet}
use stayrtr.Vrp.{Vrp, convert_vrp_list_to_map}
use stayrtr.Vrp.Last.{last_with, last_with-append, lookup-convert}
use stayrtr.Diff.{kept_loop, emits, emit_loop, apply_diff}
use stayrtr.Diff.Lookup.{
  AllFlag, merged, last_with-kept_loop, last_with-emit_loop, last_with-AllFlag,
}
use stayrtr.Diff.Replay.{View, replay, holds, replay-last_with}

module _ (ipnet_string : IpNet → Text) (k : Text) where
  abbrev flag_of : Option Vrp → ℕ
  flag_of none = 0
  flag_of (some v) = v.flags

  -- Per key, ApplyDiff merges the diff's entry with the previous one.
  pub apply_diff-lookup :
      (f : ℕ) (diff prev : List Vrp)
      → AllFlag ipnet_string k f diff
      → last_with ipnet_string k (apply_diff ipnet_string diff prev)
        ≡ merged (last_with ipnet_string k diff) (last_with ipnet_string k prev)
  unfolding apply_diff emits
  apply_diff-lookup f diff prev h =
      let diff_map = convert_vrp_list_to_map ipnet_string diff in
      let prev_map = convert_vrp_list_to_map ipnet_string prev in
      elim (Option-cases (last_with ipnet_string k diff)) [
        | inl e ↦ ground (
          arith,
          e,
          last_with-append ipnet_string k (kept_loop ipnet_string diff_map prev)
              (emit_loop ipnet_string prev_map diff),
          last_with-kept_loop ipnet_string k diff_map prev,
          last_with-emit_loop ipnet_string k f prev_map diff h,
          lookup-convert ipnet_string k diff,
        )
        | inr (v, e) ↦ ground (
          arith,
          e,
          last_with-append ipnet_string k (kept_loop ipnet_string diff_map prev)
              (emit_loop ipnet_string prev_map diff),
          last_with-kept_loop ipnet_string k diff_map prev,
          last_with-emit_loop ipnet_string k f prev_map diff h,
          lookup-convert ipnet_string k diff,
          lookup-convert ipnet_string k prev,
          last_with-AllFlag ipnet_string k f diff v h e,
        )
      ]

  -- The entry for the key, if any, is an announcement.
  abbrev pub IsAnnounced : List Vrp → Type 0
  IsAnnounced l = (v : Vrp) → last_with ipnet_string k l ≡ some v → v.flags ≡ 1

  -- For each key for which the diff has one flag, where the current list announces its entry, if any,
  -- and the diff withdraws the key only if the list has it: the list that ApplyDiff makes has the key
  -- exactly if a router that held the current list and takes in the diff has it.
  pub apply_diff-current :
      (f : ℕ) (diff prev : List Vrp)
      → AllFlag ipnet_string k f diff
      → (f ≡ 1) ⊎ ((f ≡ 0) × (holds ipnet_string prev k ≡ true))
      → IsAnnounced prev
      → holds ipnet_string (apply_diff ipnet_string diff prev) k
        ≡ replay ipnet_string diff (holds ipnet_string prev) k
  unfolding emits
  apply_diff-current f diff prev h hf hp = elim (Option-cases (last_with ipnet_string k diff)) [
    | inl e ↦ ground (
      arith,
      e,
      apply_diff-lookup f diff prev h,
      replay-last_with ipnet_string diff (holds ipnet_string prev) k,
    )
    | inr (v, e) ↦ elim (Option-cases (last_with ipnet_string k prev)) [
      | inl p ↦ ground (
        arith,
        e,
        p,
        apply_diff-lookup f diff prev h,
        last_with-AllFlag ipnet_string k f diff v h e,
        replay-last_with ipnet_string diff (holds ipnet_string prev) k,
      )
      | inr (w, p) ↦ ground (
        arith,
        e,
        p,
        apply_diff-lookup f diff prev h,
        last_with-AllFlag ipnet_string k f diff v h e,
        hp w p,
        replay-last_with ipnet_string diff (holds ipnet_string prev) k,
      )
    ]
  ]

  -- The entry for the key in `older`, if any, is a withdrawal, or announces what `s` lacks.
  abbrev pub IsFresh : List Vrp → View → Type 0
  IsFresh older s =
      (v : Vrp)
      → last_with ipnet_string k older ≡ some v
      → (v.flags ≡ 0) ⊎ ((v.flags ≡ 1) × (s k ≡ false))

  -- For each key for which the newer diff has one flag, 0 or 1, and the older one does not announce
  -- what the router has: the diff that ApplyDiff merges takes a router to where the two diffs take it
  -- one after the other.
  pub replay-apply_diff :
      (f : ℕ) (diff older : List Vrp) (s : View)
      → AllFlag ipnet_string k f diff
      → f ≤ 1
      → IsFresh older s
      → replay ipnet_string (apply_diff ipnet_string diff older) s k
        ≡ replay ipnet_string diff (replay ipnet_string older s) k
  unfolding emits
  replay-apply_diff f diff older s h hf fresh =
      elim (Option-cases (last_with ipnet_string k diff)) [
        | inl e ↦ ground (
          arith,
          e,
          apply_diff-lookup f diff older h,
          replay-last_with ipnet_string (apply_diff ipnet_string diff older) s k,
          replay-last_with ipnet_string diff (replay ipnet_string older s) k,
          replay-last_with ipnet_string older s k,
        )
        | inr (v, e) ↦ elim (Option-cases (last_with ipnet_string k older)) [
          | inl p ↦ ground (
            arith,
            e,
            p,
            apply_diff-lookup f diff older h,
            last_with-AllFlag ipnet_string k f diff v h e,
            replay-last_with ipnet_string (apply_diff ipnet_string diff older) s k,
            replay-last_with ipnet_string diff (replay ipnet_string older s) k,
          )
          | inr (w, p) ↦ ground (
            arith,
            e,
            p,
            fresh w p,
            apply_diff-lookup f diff older h,
            last_with-AllFlag ipnet_string k f diff v h e,
            replay-last_with ipnet_string (apply_diff ipnet_string diff older) s k,
            replay-last_with ipnet_string diff (replay ipnet_string older s) k,
          )
        ]
      ]

  -- A key that three updates withdraw, announce and withdraw again is not in the merge of the three
  -- diffs: a router that had the key before them keeps it.
  pub apply_diff_flap :
      (d1 d2 d3 : List Vrp) (v1 v2 v3 : Vrp)
      → last_with ipnet_string k d1 ≡ some v1
      → v1.flags ≡ 0
      → AllFlag ipnet_string k 1 d2
      → last_with ipnet_string k d2 ≡ some v2
      → AllFlag ipnet_string k 0 d3
      → last_with ipnet_string k d3 ≡ some v3
      → last_with ipnet_string k (apply_diff ipnet_string d3 (apply_diff ipnet_string d2 d1)) ≡ none
  unfolding emits
  apply_diff_flap d1 d2 d3 v1 v2 v3 e1 f1 h2 e2 h3 e3 = ground (
    arith,
    e1,
    e2,
    e3,
    apply_diff-lookup 1 d2 d1 h2,
    apply_diff-lookup 0 d3 (apply_diff ipnet_string d2 d1) h3,
    last_with-AllFlag ipnet_string k 1 d2 v2 h2 e2,
    last_with-AllFlag ipnet_string k 0 d3 v3 h3 e3,
  )
