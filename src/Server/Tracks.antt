-- ===== src/Server/Tracks.antt =====
-- The diff that is kept for a router that was in step with the cache some updates ago.
use stayrtr.Prelude.{
  ℕ, ◌+◌, ◌-◌, ◌<◌, ◌≡◌, ◌≢◌, ◌∙◌, arith, Bool, true, false, some, List, [], length, get_elem?,
  ◌==◌, ==_iff, u32, Text, nat_eq, lookup, Bool-cases, inl, inr,
}
use stayrtr.Prelude.Int.{pos}
use stayrtr.Net.{IpNet}
use stayrtr.Vrp.{Vrp}
use stayrtr.Diff.Replay.{holds, replay}
use stayrtr.Diff.Merge.{IsFresh, IsAnnounced}
use stayrtr.Server.{Server, done, get_vrps_serial_diff}
use stayrtr.Server.Serials.{steps}
use stayrtr.Server.Linked.{index_for, IsLinked}

module _ (ipnet_string : IpNet → Text) (k : Text) where
  -- The router was in step with the cache at `serial`, `behind` updates ago, and held `held`. The
  -- diff that is kept for its serial leads it to the current list.
  pub record Tracks (s : Server) (serial behind : ℕ) (held : Text → Bool) : Type 0 where
    pub linked : IsLinked s
    pub known : IsAnnounced ipnet_string k s.vrp_current
    pub serial_fits : serial < 4294967296
    pub distance : s.vrp_current_serial ≡ u32 (serial + behind)
    pub kept : behind < length s.vrp_list_diff
    pub in_step : behind ≡ 0 → held k ≡ holds ipnet_string s.vrp_current k
    pub leads :
        0 < behind
        → (d : List Vrp) × (get_elem? s.vrp_list_diff (length s.vrp_list_diff - behind) ≡ some d)
          × (replay ipnet_string d held k ≡ holds ipnet_string s.vrp_current k)
          × IsFresh ipnet_string k d held

  -- the map leads its serial to that diff
  entry-Tracks :
      (s : Server) (serial behind : ℕ) (held : Text → Bool)
      → Tracks s serial behind held
      → serial ≢ s.vrp_current_serial
      → lookup serial s.vrp_map_serial ≡ some (pos (length s.vrp_list_diff - behind))
  entry-Tracks s serial behind held t ne =
      t.linked.entries serial t.serial_fits ne
      ∙ within t.linked.start t.linked.count (length s.vrp_list_diff) s.vrp_current_serial
          t.linked.start_fits (omega (arith, t.linked.bounded, t.linked.keep_bounded))
          t.linked.diffs t.linked.current t.distance t.kept
    where
      within :
          (start count size cur : ℕ)
          → start < 4294967296
          → count < 2147483650
          → size ≡ count
          → cur ≡ u32 (start + (count - 1))
          → cur ≡ u32 (serial + behind)
          → behind < size
          → index_for (steps start serial) count ≡ some (pos (size - behind))
      within start count size cur h1 h2 h3 h4 h5 h6 =
          let far : steps start serial ≡ count - 1 - behind = omega (arith, t.serial_fits) in
          rw far (ground arith)

  -- Its serial is answered with the diff that is kept for it.
  pub get_vrps_serial_diff-Tracks :
      (s : Server) (serial behind : ℕ) (held : Text → Bool)
      → Tracks s serial behind held
      → 0 < behind
      → (d : List Vrp) → get_elem? s.vrp_list_diff (length s.vrp_list_diff - behind) ≡ some d
      → get_vrps_serial_diff s serial ≡ done (d, true)
  unfolding get_vrps_serial_diff
  get_vrps_serial_diff-Tracks s serial behind held t h d found =
      elim (Bool-cases (serial == s.vrp_current_serial)) [
        | inl e ↦
            let p = (==_iff serial s.vrp_current_serial).0 e in
            absurd (
              omega (
                arith, p, h, t.distance, t.kept, t.linked.diffs, t.linked.bounded,
                t.linked.keep_bounded, t.serial_fits,
              ))
        | inr e ↦ rw (e, entry-Tracks s serial behind held t (λ p. ground arith)) (rw found)
      ]

  -- Its serial is answered with a diff that leads it to the current list.
  pub query-Tracks :
      (s : Server) (serial behind : ℕ) (held : Text → Bool)
      → Tracks s serial behind held
      → (d : List Vrp) × (get_vrps_serial_diff s serial ≡ done (d, true))
        × (replay ipnet_string d held k ≡ holds ipnet_string s.vrp_current k)
  unfolding get_vrps_serial_diff replay
  query-Tracks s serial behind held t = elim (Bool-cases (serial == s.vrp_current_serial)) [
    | inl e ↦ ([], rw e, t.in_step (in_step_at e))
    | inr e ↦
        let (d, found, right, _) = t.leads (behind_at e) in
        (d, rw (e, entry-Tracks s serial behind held t (λ p. ground arith)) (rw found), right)
  ]
    where
      in_step_at : (serial == s.vrp_current_serial) ≡ true → behind ≡ 0
      in_step_at e =
          let p = (==_iff serial s.vrp_current_serial).0 e in
          omega (
            arith, p, t.distance, t.kept, t.linked.diffs, t.linked.bounded, t.linked.keep_bounded,
            t.serial_fits,
          )

      differs : (serial == s.vrp_current_serial) ≡ false → s.vrp_current_serial ≢ serial
      differs e p = ground arith

      positive : (n : ℕ) → n ≢ 0 → 0 < n
      positive n h = omega arith

      behind_at : (serial == s.vrp_current_serial) ≡ false → 0 < behind
      behind_at e = positive behind (λ p. differs e (t.distance ∙ omega (arith, p, t.serial_fits)))
