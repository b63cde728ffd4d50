-- ===== src/Server/Resync.antt =====
-- What a router that comes back after some updates is sent.
use stayrtr.Prelude.{
  ℕ, suc, ◌+◌, ◌≤◌, ◌<◌, ◌≡◌, refl, ◌∙◌, sym, arith, Bool, true, false, List, [], ◌∷◌, length, ◌==◌,
  Text, nat_eq, Bool-cases, inl, inr,
}
use stayrtr.Net.{IpNet}
use stayrtr.Vrp.{Vrp}
use stayrtr.Diff.{apply_diff}
use stayrtr.Diff.Replay.{holds, replay, replay-last_with}
use stayrtr.Diff.Compute.{diff_of, replay-compute_diff}
use stayrtr.Diff.Flags.{flag_after, diff_of-AllFlag}
use stayrtr.Diff.Merge.{IsFresh, IsAnnounced, replay-apply_diff}
use stayrtr.Server.{
  Server, done, add_serial, add_vrps_diff, add_vrps, add_all, get_vrps_serial_diff,
}
use stayrtr.Server.Linked.{IsLinked}
use stayrtr.Server.Update.{add_vrps_diff-IsLinked, length-vrp_list_diff, vrp_current_serial-add}
use stayrtr.Server.Keys.{holds-update, update-IsAnnounced, diff_of-IsFresh, apply_diff-IsFresh}
use stayrtr.Server.Tracks.{Tracks, query-Tracks}
use stayrtr.Server.Places.{new_diff_at, old_diff_at}

pub keep_diff-add :
    (ipnet_string : IpNet → Text) (s : Server) (new : List Vrp)
    → (add_vrps ipnet_string s new).keep_diff ≡ s.keep_diff
unfolding add_vrps add_vrps_diff add_serial
keep_diff-add ipnet_string s new = refl

pub vrp_current-add :
    (ipnet_string : IpNet → Text) (s : Server) (diff : List Vrp)
    → (add_vrps_diff ipnet_string s diff).vrp_current ≡ apply_diff ipnet_string diff s.vrp_current
unfolding add_vrps_diff
vrp_current-add ipnet_string s diff = refl

module _ (ipnet_string : IpNet → Text) (k : Text) where
  module _ (s : Server) (new : List Vrp) (serial behind : ℕ) (held : Text → Bool)
      (t : Tracks ipnet_string k s serial behind held)
      (stays : held k ≡ true
        → holds ipnet_string s.vrp_current k ≡ false
        → holds ipnet_string new k ≡ false) where
    abbrev cur : List Vrp
    cur = s.vrp_current

    abbrev diff : List Vrp
    diff = diff_of ipnet_string new cur

    -- the current list after the update
    holds-after :
        holds ipnet_string (add_vrps ipnet_string s new).vrp_current k ≡ holds ipnet_string new k
    unfolding add_vrps
    holds-after =
        rw (vrp_current-add ipnet_string s diff) (holds-update ipnet_string k new cur t.known)

    -- the diff to lead the router on, where it was in step before the update
    leads_new :
        behind ≡ 0
        → (replay ipnet_string diff held k ≡ holds ipnet_string new k)
          × IsFresh ipnet_string k diff held
    leads_new e = (
      ground (
        arith,
        t.in_step e,
        replay-last_with ipnet_string diff held k,
        replay-last_with ipnet_string diff (holds ipnet_string cur) k,
        replay-compute_diff ipnet_string k new cur,
      ),
      λ v p. rw (t.in_step e) (diff_of-IsFresh ipnet_string k new cur t.known v p),
    )

    -- and where it was not
    leads_old :
        (d : List Vrp)
        → replay ipnet_string d held k ≡ holds ipnet_string cur k
        → IsFresh ipnet_string k d held
        → (replay ipnet_string (apply_diff ipnet_string diff d) held k ≡ holds ipnet_string new k)
          × IsFresh ipnet_string k (apply_diff ipnet_string diff d) held
    leads_old d e fresh = (
      ground (
        arith,
        e,
        replay-last_with ipnet_string diff (replay ipnet_string d held) k,
        replay-last_with ipnet_string diff (holds ipnet_string cur) k,
        replay-compute_diff ipnet_string k new cur,
        replay-apply_diff ipnet_string k (flag_after ipnet_string k cur) diff d held
            (diff_of-AllFlag ipnet_string k new cur) (ground arith) fresh,
      ),
      apply_diff-IsFresh ipnet_string k new cur t.known d held fresh stays,
    )

    -- An update takes the router one step further back, and keeps a diff for it.
    pub update-Tracks :
        suc behind ≤ s.keep_diff
        → Tracks ipnet_string k (add_vrps ipnet_string s new) serial (suc behind) held
    unfolding add_vrps
    update-Tracks h = record {
      linked = add_vrps_diff-IsLinked ipnet_string s diff t.linked;
      known =
          rw (vrp_current-add ipnet_string s diff)
            (update-IsAnnounced ipnet_string k new cur t.known);
      serial_fits = t.serial_fits;
      distance =
          vrp_current_serial-add ipnet_string s diff t.linked
          ∙ ground (arith, t.distance, t.kept, t.linked.diffs);
      kept = ground (
        arith,
        length-vrp_list_diff ipnet_string s diff t.linked,
        t.kept,
        t.linked.diffs,
        t.linked.bounded,
      );
      in_step = λ p. absurd (omega arith);
      leads = λ p. elim (Bool-cases (behind == 0)) [
        | inl e ↦
            let zero_behind : behind ≡ 0 = ground arith in
            (
              diff,
              rw zero_behind (new_diff_at ipnet_string s diff t.linked),
              (leads_new zero_behind).0 ∙ sym holds-after,
              (leads_new zero_behind).1,
            )
        | inr e ↦
            let (d, found, right, fresh) = t.leads (ground arith) in
            (
              apply_diff ipnet_string diff d,
              old_diff_at ipnet_string s diff t.linked behind d (ground arith)
                  (ground (arith, t.kept, t.linked.diffs, t.linked.bounded)) found,
              (leads_old d right fresh).0 ∙ sym holds-after,
              (leads_old d right fresh).1,
            )
      ];
    }

  -- A router in step is tracked from its own serial.
  pub start-Tracks :
      (s : Server)
      → IsLinked s
      → IsAnnounced ipnet_string k s.vrp_current
      → 0 < length s.vrp_list_diff
      → Tracks ipnet_string k s s.vrp_current_serial 0 (holds ipnet_string s.vrp_current)
  start-Tracks s linked known some_data =
      let fits : s.vrp_current_serial < 4294967296 = omega (arith, linked.current) in
      record {
        linked = linked;
        known = known;
        serial_fits = fits;
        distance = omega (arith, fits);
        kept = some_data;
        in_step = λ p. refl;
        leads = λ p. absurd (omega arith);
      }

  -- A key that the router holds and that is withdrawn is not announced again in these updates.
  abbrev pub StaysAway : Bool → Bool → List (List Vrp) → Type 0
  StaysAway held now [] = Unit
  StaysAway held now (new ∷ updates) =
      (held ≡ true → now ≡ false → holds ipnet_string new k ≡ false)
      × StaysAway held (holds ipnet_string new k) updates

  pub add_all-Tracks :
      (updates : List (List Vrp)) (s : Server) (serial behind : ℕ) (held : Text → Bool)
      → Tracks ipnet_string k s serial behind held
      → behind + length updates ≤ s.keep_diff
      → StaysAway (held k) (holds ipnet_string s.vrp_current k) updates
      → Tracks ipnet_string k (add_all ipnet_string s updates) serial (behind + length updates) held
  unfolding add_all
  add_all-Tracks [] s serial behind held t h away =
      let e : behind + 0 ≡ behind = omega arith in rw e t
  add_all-Tracks (new ∷ updates) s serial behind held t h (stays, away) =
      let e : behind + suc (length updates) ≡ suc behind + length updates = omega arith in
      rw e (
        add_all-Tracks updates (add_vrps ipnet_string s new) serial (suc behind) held
          (update-Tracks s new serial behind held t stays (omega arith))
          (rw (keep_diff-add ipnet_string s new) (omega arith))
          (rw (holds-after s new serial behind held t stays) away))

  -- A router in step with a well linked cache that keeps a diff comes back with its serial after at
  -- most `keep_diff` updates. It is answered with a diff, and for each key that the cache's list
  -- announced, if it had it at all, and that was not withdrawn and announced again in between if the
  -- router held it, taking in the diff brings the router to the current list.
  pub resync :
      (s : Server) (updates : List (List Vrp))
      → IsLinked s
      → IsAnnounced ipnet_string k s.vrp_current
      → 0 < length s.vrp_list_diff
      → length updates ≤ s.keep_diff
      → StaysAway (holds ipnet_string s.vrp_current k) (holds ipnet_string s.vrp_current k) updates
      → (d : List Vrp) × (get_vrps_serial_diff (add_all ipnet_string s updates) s.vrp_current_serial
          ≡ done (d, true))
        × (replay ipnet_string d (holds ipnet_string s.vrp_current) k
            ≡ holds ipnet_string (add_all ipnet_string s updates).vrp_current k)
  resync s updates linked known some_data few away =
      query-Tracks ipnet_string k (add_all ipnet_string s updates) s.vrp_current_serial
        (0 + length updates) (holds ipnet_string s.vrp_current)
        (add_all-Tracks updates s s.vrp_current_serial 0 (holds ipnet_string s.vrp_current)
          (start-Tracks s linked known some_data) (omega arith) away)
