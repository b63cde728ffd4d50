-- ===== src/Server/Query.antt =====
-- The cache from its start, over updates and queries (lib/server.go).
use stayrtr.Prelude.{
  ℕ, zero, suc, ◌≤◌, ◌<◌, ◌≡◌, ◌≢◌, refl, arith, true, false, some, List, [], ◌∷◌, length,
  get_elem?, lt→ltb, ◌==◌, ==_iff, Text, nat_eq, lookup, Bool-cases, inl, inr,
}
use stayrtr.Net.{IpNet}
use stayrtr.Vrp.{Vrp}
use stayrtr.Vrp.Last.{last_with}
use stayrtr.Diff.Replay.{holds}
use stayrtr.Diff.Compute.{diff_of}
use stayrtr.Diff.Merge.{IsAnnounced}
use stayrtr.Server.{
  Server, ServerConfiguration, new_server, set_serial, done, add_vrps, get_vrps_serial_diff,
}
use stayrtr.Server.Serials.{serials, steps}
use stayrtr.Server.Linked.{IsLinked}
use stayrtr.Server.Update.{add_vrps_diff-IsLinked}
use stayrtr.Server.Keys.{update-IsAnnounced, holds-update}
use stayrtr.Server.Resync.{vrp_current-add}

-- The cache is well linked, and every entry of its current list that a key leads to is announced.
pub record IsCache (ipnet_string : IpNet → Text) (s : Server) : Type 0 where
  pub linked : IsLinked s
  pub known : (k : Text) → IsAnnounced ipnet_string k s.vrp_current

module _ (ipnet_string : IpNet → Text) where
  -- A new server that keeps at least one diff and fewer than 2^31, once its first serial is set to any
  -- 32-bit number, is well linked, and its entries are announced.
  pub new_server-IsCache :
      (configuration : ServerConfiguration) (random serial : ℕ)
      → 0 < configuration.keep_difference
      → configuration.keep_difference < 2147483648
      → serial < 4294967296
      → IsCache ipnet_string (set_serial (new_server configuration random) serial)
  unfolding new_server set_serial lookup last_with serials
  new_server-IsCache configuration random serial positive bounded fits = record {
    linked = record {
      start = serial;
      count = 0;
      start_fits = fits;
      keep_positive = positive;
      keep_bounded = bounded;
      automatic = refl;
      list = refl;
      bounded = omega arith;
      diffs = refl;
      current = omega arith;
      entries = λ other h ne. ground arith;
    };
    known = λ k v e. cc;
  }

  -- AddVRPs of any list keeps a cache well linked and the entries of its current list announced.
  pub add_vrps-IsCache :
      (s : Server) (new : List Vrp)
      → IsCache ipnet_string s
      → IsCache ipnet_string (add_vrps ipnet_string s new)
  unfolding add_vrps
  add_vrps-IsCache s new c = record {
    linked =
        add_vrps_diff-IsLinked ipnet_string s (diff_of ipnet_string new s.vrp_current) c.linked;
    known = λ k.
        rw (vrp_current-add ipnet_string s (diff_of ipnet_string new s.vrp_current))
          (update-IsAnnounced ipnet_string k new s.vrp_current (c.known k));
  }

  -- After AddVRPs on a well linked cache whose entries are announced, the current list has exactly the
  -- keys of the list that was given.
  pub holds-add_vrps :
      (s : Server) (new : List Vrp) (k : Text)
      → IsCache ipnet_string s
      → holds ipnet_string (add_vrps ipnet_string s new).vrp_current k ≡ holds ipnet_string new k
  unfolding add_vrps
  holds-add_vrps s new k c =
      rw (vrp_current-add ipnet_string s (diff_of ipnet_string new s.vrp_current))
        (holds-update ipnet_string k new s.vrp_current (c.known k))

get_elem?_total {ℓ} :
    {A : Type ℓ} (xs : List A) (i : ℕ) → i < length xs → (x : A) × (get_elem? xs i ≡ some x)
get_elem?_total [] i h = absurd (omega arith)
get_elem?_total (x ∷ xs) zero h = (x, refl)
get_elem?_total (x ∷ xs) (suc i) h = get_elem?_total xs i (omega arith)

-- A well linked cache answers a 32-bit serial among those that it keeps with a diff, and any other
-- one, if it is not the current serial, with none. In neither case is the list of diffs indexed out
-- of range.
pub query_answers :
    (s : Server) (serial : ℕ) (linked : IsLinked s)
    → serial < 4294967296
    → (steps linked.start serial < linked.count
        → (d : List Vrp) × (get_vrps_serial_diff s serial ≡ done (d, true)))
      × (linked.count ≤ steps linked.start serial
          → serial ≢ s.vrp_current_serial
          → get_vrps_serial_diff s serial ≡ done ([], false))
unfolding get_vrps_serial_diff
query_answers s serial linked fits = (
  λ h. elim (Bool-cases (serial == s.vrp_current_serial)) [
    | inl e ↦ ([], rw e)
    | inr e ↦
        let ne : serial ≢ s.vrp_current_serial = (λ p. ground arith) in
        let entry = linked.entries serial fits ne in
        let place : suc (steps linked.start serial) < length s.vrp_list_diff = omega (
          arith, ne, linked.current, linked.diffs, linked.bounded, linked.keep_bounded, h, fits,
          linked.start_fits,
        ) in
        let (d, found) = get_elem?_total s.vrp_list_diff (suc (steps linked.start serial)) place in
        (d, rw (e, entry, lt→ltb (steps linked.start serial) linked.count h) (rw found))
  ],
  λ h ne. ground (arith, linked.entries serial fits ne, ==_iff serial s.vrp_current_serial),
)
