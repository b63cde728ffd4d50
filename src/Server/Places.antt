-- ===== src/Server/Places.antt =====
-- Where the diffs stand in the list after an update.
use stayrtr.Prelude.{
  ℕ, zero, suc, ◌+◌, ◌-◌, ◌≤◌, ◌<◌, ◌≡◌, arith, some, List, [], ◌∷◌, ◌++◌, length, get_elem?,
  get_elem?-drop, get_elem?-append_left, get_elem?-append_last, Text, nat_eq,
}
use stayrtr.Net.{IpNet}
use stayrtr.Vrp.{Vrp}
use stayrtr.Diff.{apply_diff}
use stayrtr.Server.{Server, apply_to_all, add_vrps_diff}
use stayrtr.Server.Linked.{IsLinked}
use stayrtr.Server.Update.{
  removed_by, vrp_list_diff-add, length-vrp_list_diff, length-apply_to_all, removed_le,
}

module _ (ipnet_string : IpNet → Text) where
  get_elem?-apply_to_all :
      (diff : List Vrp) (ds : List (List Vrp)) (i : ℕ) (d : List Vrp)
      → get_elem? ds i ≡ some d
      → get_elem? (apply_to_all ipnet_string diff ds) i ≡ some (apply_diff ipnet_string diff d)
  unfolding apply_to_all
  get_elem?-apply_to_all diff [] i d e = cc
  get_elem?-apply_to_all diff (x ∷ ds) zero d e = cc
  get_elem?-apply_to_all diff (x ∷ ds) (suc i) d e = get_elem?-apply_to_all diff ds i d e

  -- where a diff stands after an update
  module _ (s : Server) (diff : List Vrp) (linked : IsLinked s) where
    pub new_diff_at :
        let after = (add_vrps_diff ipnet_string s diff).vrp_list_diff in
        get_elem? after (length after - 1) ≡ some diff
    new_diff_at =
        let all = apply_to_all ipnet_string diff s.vrp_list_diff in
        let r = removed_by ipnet_string s diff linked in
        let place : r + (length s.vrp_list_diff + 1 - r - 1) ≡ length all = omega (
          arith,
          length-apply_to_all ipnet_string s diff linked s.vrp_list_diff,
          removed_le ipnet_string s diff linked,
          linked.diffs,
        ) in
        rw
          (
            length-vrp_list_diff ipnet_string s diff linked,
            vrp_list_diff-add ipnet_string s diff linked,
            get_elem?-drop r (length s.vrp_list_diff + 1 - r - 1) (all ++ (diff ∷ [])),
            place,
          )
          (get_elem?-append_last all diff)

    pub old_diff_at :
        (behind : ℕ) (d : List Vrp)
        → 0 < behind
        → suc behind + removed_by ipnet_string s diff linked ≤ length s.vrp_list_diff
        → get_elem? s.vrp_list_diff (length s.vrp_list_diff - behind) ≡ some d
        → let after = (add_vrps_diff ipnet_string s diff).vrp_list_diff in
          get_elem? after (length after - suc behind) ≡ some (apply_diff ipnet_string diff d)
    old_diff_at behind d h hb e =
        let all = apply_to_all ipnet_string diff s.vrp_list_diff in
        let r = removed_by ipnet_string s diff linked in
        let n = length s.vrp_list_diff in
        let place : r + (n + 1 - r - suc behind) ≡ n - behind = omega arith in
        rw
          (
            length-vrp_list_diff ipnet_string s diff linked,
            vrp_list_diff-add ipnet_string s diff linked,
            get_elem?-drop r (n + 1 - r - suc behind) (all ++ (diff ∷ [])),
            place,
            get_elem?-append_left all (diff ∷ []) (n - behind)
                (omega (arith, length-apply_to_all ipnet_string s diff linked s.vrp_list_diff)),
          )
          (get_elem?-apply_to_all diff s.vrp_list_diff (n - behind) d e)
