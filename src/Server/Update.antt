-- ===== src/Server/Update.antt =====
-- The invariant of the cache under one update (lib/server.go: AddVRPsDiff).
use stayrtr.Prelude.{
  ℕ, suc, ◌+◌, ◌-◌, ◌≤◌, ◌<◌, ◌≡◌, ◌≢◌, refl, ap, ◌∙◌, sym, arith, List, [], ◌∷◌, ◌++◌, length,
  length-append, length-drop, length-take, lt→ltb, take, drop, ltb, leb, ◌==◌, if◌then◌else◌, u32,
  Text, GoMap, nat_eq, lookup, insert, lookup-insert, lookup-delete, lookup-update_all, Bool-cases,
  ◌⊎◌, inl, inr,
}
use stayrtr.Prelude.Int.{ℤ, pos, sub_ℕ}
use stayrtr.Net.{IpNet}
use stayrtr.Vrp.{Vrp}
use stayrtr.Server.{
  Server, generate_serial, add_serial, shift_indices, delete_all, apply_to_all, add_vrps_diff,
  trim_diffs,
}
use stayrtr.Server.Serials.{
  serials, steps, length-serials, serials-append, drop-serials, take-serials,
}
use stayrtr.Server.Linked.{index_for, IsLinked, generate_serial-IsLinked, remove_count-IsLinked}

module _ (start count cur serial : ℕ) (m : GoMap ℕ ℤ) (start_fits : start < 4294967296)
    (serial_fits : serial < 4294967296) (bounded : count < 2147483649)
    (is_current : cur ≡ u32 (start + (count - 1))) (not_next : serial ≢ u32 (start + count))
    (entry : serial ≢ cur → lookup serial m ≡ index_for (steps start serial) count) where
  -- the map after an update that takes off no serial
  lookup-grown :
      lookup serial (delete_all [] (shift_indices cur 0 (insert cur (pos count) m)))
      ≡ index_for (steps start serial) (count + 1)
  unfolding delete_all shift_indices
  lookup-grown = rw lookup-insert (elim (Bool-cases (cur == serial)) [
    | inl e ↦ ground arith
    | inr e ↦ ground (arith, entry (λ p. ground arith))
  ])

  -- the map after an update that takes off the oldest
  lookup-shifted :
      2 ≤ count
      → lookup serial
          (delete_all (start ∷ []) (shift_indices cur 1 (insert cur (pos (count - 1)) m)))
        ≡ index_for (steps (u32 (start + 1)) serial) count
  unfolding delete_all shift_indices
  lookup-shifted h =
      rw (lookup-delete, lookup-update_all, lookup-insert)
        (elim (Bool-cases (cur == serial)) [
          | inl e ↦ ground arith
          | inr e ↦ ground (arith, entry (λ p. ground arith))
        ])

  -- the map after an update that takes off `r` serials
  lookup-updated :
      (r : ℕ)
      → (r ≡ 0) ⊎ ((r ≡ 1) × (2 ≤ count))
      → lookup serial (
          delete_all
            (take r (serials start count))
            (shift_indices cur r (insert cur (sub_ℕ (pos (count + 1 - r)) 1) m)))
        ≡ index_for (steps (u32 (start + r)) serial) (count + 1 - r)
  lookup-updated r (inl none_off) =
      let index : sub_ℕ (pos (count + 1 - 0)) 1 ≡ pos count = ground arith in
      let same : u32 (start + 0) ≡ start = omega arith in
      let size : count + 1 - 0 ≡ count + 1 = omega arith in
      rw (none_off, index, same, size) lookup-grown
  lookup-updated r (inr (one_off, h)) =
      let index : sub_ℕ (pos (count + 1 - 1)) 1 ≡ pos (count - 1) = ground arith in
      let size : count + 1 - 1 ≡ count = omega arith in
      rw (one_off, index, size, take-serials count start (omega arith)) (lookup-shifted h)

module _ (ipnet_string : IpNet → Text) (s : Server) (diff : List Vrp) (linked : IsLinked s) where
  open linked use {start, count}

  pub length-apply_to_all :
      (ds : List (List Vrp)) → length (apply_to_all ipnet_string diff ds) ≡ length ds
  unfolding apply_to_all
  length-apply_to_all [] = refl
  length-apply_to_all (d ∷ ds) = ap suc (length-apply_to_all ds)

  -- how many serials an update takes off
  abbrev pub removed_by : ℕ
  removed_by = if ltb count (s.keep_diff + 1) then 0 else 1

  pub removed_le : removed_by ≤ count
  removed_le = ground (arith, linked.keep_positive)

  pub length-all_diffs :
      length (apply_to_all ipnet_string diff s.vrp_list_diff ++ (diff ∷ [])) ≡ count + 1
  length-all_diffs = omega (
    arith,
    length-append (apply_to_all ipnet_string diff s.vrp_list_diff) (diff ∷ []),
    length-apply_to_all s.vrp_list_diff,
    linked.diffs,
  )

  removed-add : (x : ℕ) → (add_serial s x).0 ≡ take removed_by (serials start count)
  unfolding add_serial
  removed-add x = rw (remove_count-IsLinked linked, linked.list)

  length-removed : length (take removed_by (serials start count)) ≡ removed_by
  length-removed =
      length-take removed_by (serials start count)
        (omega (arith, length-serials count start, removed_le))

  trimmed :
      trim_diffs s.keep_diff removed_by
        (apply_to_all ipnet_string diff s.vrp_list_diff ++ (diff ∷ []))
      ≡ drop removed_by (apply_to_all ipnet_string diff s.vrp_list_diff ++ (diff ∷ []))
  unfolding trim_diffs
  trimmed = rw length-all_diffs (elim (Bool-cases (leb s.keep_diff (count + 1))) [
    | inl e ↦ rw (e, lt→ltb 0 s.keep_diff linked.keep_positive)
    | inr e ↦ rw (e, lt→ltb count (s.keep_diff + 1) (ground arith))
  ])

  -- The diffs after an update: the older ones merged with the new one, which comes last.
  pub vrp_list_diff-add :
      (add_vrps_diff ipnet_string s diff).vrp_list_diff
      ≡ drop removed_by (apply_to_all ipnet_string diff s.vrp_list_diff ++ (diff ∷ []))
  unfolding add_vrps_diff
  vrp_list_diff-add = rw (removed-add (generate_serial s), length-removed) trimmed

  length-trimmed :
      length (drop removed_by (apply_to_all ipnet_string diff s.vrp_list_diff ++ (diff ∷ [])))
      ≡ count + 1 - removed_by
  length-trimmed = omega (
    arith,
    length-drop removed_by (apply_to_all ipnet_string diff s.vrp_list_diff ++ (diff ∷ [])),
    length-all_diffs,
  )

  vrp_list_serial-add :
      (add_vrps_diff ipnet_string s diff).vrp_list_serial
      ≡ serials (u32 (start + removed_by)) (count + 1 - removed_by)
  unfolding add_vrps_diff add_serial
  vrp_list_serial-add =
      let r = removed_by in
      let next : u32 (start + count) ≡ u32 (u32 (start + r) + (count - r)) =
        omega (arith, removed_le) in
      let more : count + 1 - r ≡ suc (count - r) = omega (arith, removed_le) in
      rw
        (
          generate_serial-IsLinked linked,
          remove_count-IsLinked linked,
          linked.list,
          drop-serials r count start linked.start_fits removed_le,
          next,
          more,
        )
        (serials-append (count - r) (u32 (start + r)) (omega arith))

  vrp_map_serial-add :
      (add_vrps_diff ipnet_string s diff).vrp_map_serial
      ≡ delete_all (take removed_by (serials start count)) (
          shift_indices s.vrp_current_serial removed_by
            (insert s.vrp_current_serial (sub_ℕ (pos (count + 1 - removed_by)) 1) s.vrp_map_serial))
  unfolding add_vrps_diff
  vrp_map_serial-add = rw (removed-add (generate_serial s), length-removed, trimmed, length-trimmed)

  lookup-add :
      (serial : ℕ)
      → serial < 4294967296
      → serial ≢ u32 (start + count)
      → lookup serial (add_vrps_diff ipnet_string s diff).vrp_map_serial
        ≡ index_for (steps (u32 (start + removed_by)) serial) (count + 1 - removed_by)
  lookup-add serial h next = rw vrp_map_serial-add (
      lookup-updated start count s.vrp_current_serial serial s.vrp_map_serial linked.start_fits h
        (omega (arith, linked.bounded, linked.keep_bounded)) linked.current next
        (linked.entries serial h) removed_by (ground (arith, linked.keep_positive)))

  pub length-vrp_list_diff :
      length (add_vrps_diff ipnet_string s diff).vrp_list_diff
      ≡ length s.vrp_list_diff + 1 - removed_by
  length-vrp_list_diff = ap length vrp_list_diff-add ∙ length-trimmed ∙ omega (arith, linked.diffs)

  pub vrp_current_serial-add :
      (add_vrps_diff ipnet_string s diff).vrp_current_serial
      ≡ u32 (s.vrp_current_serial + (if ltb 0 count then 1 else 0))
  unfolding add_vrps_diff
  vrp_current_serial-add = generate_serial-IsLinked linked ∙ ground (arith, linked.current)

  pub add_vrps_diff-IsLinked : IsLinked (add_vrps_diff ipnet_string s diff)
  unfolding add_vrps_diff add_serial
  add_vrps_diff-IsLinked = record {
    start = u32 (start + removed_by);
    count = count + 1 - removed_by;
    start_fits = omega arith;
    keep_positive = linked.keep_positive;
    keep_bounded = linked.keep_bounded;
    automatic = linked.automatic;
    list = vrp_list_serial-add;
    bounded = ground (arith, linked.bounded);
    diffs = ap length vrp_list_diff-add ∙ length-trimmed;
    current = generate_serial-IsLinked linked ∙ omega (arith, removed_le);
    entries =
        λ serial h ne. lookup-add serial h (λ e. ne (e ∙ sym (generate_serial-IsLinked linked)));
  }
