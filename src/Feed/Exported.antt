-- ===== src/Feed/Exported.antt =====
-- cmd/stayrtr/stayrtr.go: exporter, and what it shows of the server over the daemon's turns.
use stayrtr.Prelude.Options.{or_nothing}
use stayrtr.Prelude.{
  ℕ, ◌≡◌, refl, ◌∙◌, Bool, true, false, ◌&&◌, ◌||◌, Option, none, some, List, Text, length, ◌==◌,
  inl, inr, if◌then◌else◌, Bool-cases, Option-cases,
}
use stayrtr.Prelude.Int.{ℤ}
use stayrtr.Net.{IpNet}
use stayrtr.Diff.Replay.{holds}
use stayrtr.Vrp.{Vrp}
use stayrtr.Prefixfile.{VrpJson, VrpList}
use stayrtr.Server.Query.{IsCache, add_vrps-IsCache, holds-add_vrps}
use stayrtr.Fetch.{Fetched, fetched, failed, Outside, fetch_file}
use stayrtr.Feed.{process_data}
use stayrtr.Feed.State.{
  State, state_after, update_from_data, update_from_new_state, new_vrps, is_stale,
}
use stayrtr.Feed.Refresh.{
  Libraries, is_minus_one, note_fetch, is_identical, take_file, update_after, update_file,
  take_slurm, update_slurm_after, update_slurm, update_slurm_if_named,
}
use stayrtr.Feed.Turns.{Moment, renew, run_start, routine_turn}

-- exporter, up to the encoding as JSON
unfoldable pub exporter : State → VrpList
exporter s = s.exported

-- `t` has the server and the exported list of `s`.
abbrev SameView : State → State → Type 0
SameView s t = (t.server ≡ s.server) × (t.exported ≡ s.exported)

note_fetch-SameView :
    (s : State) (code : ℤ) (lastrefresh : Bool) → SameView s (note_fetch s code lastrefresh)
unfolding note_fetch
note_fetch-SameView s code true = elim (Bool-cases (is_minus_one code)) [
  | inl e ↦ rw (e, note_fetch) (refl, refl)
  | inr e ↦ rw (e, note_fetch) (refl, refl)
]
note_fetch-SameView s code false = elim (Bool-cases (is_minus_one code)) [
  | inl e ↦ rw (e, note_fetch) (refl, refl)
  | inr e ↦ rw (e, note_fetch) (refl, refl)
]

module _ (libraries : Libraries) where
  take_file-SameView :
      (s : State) (file text : Text) → SameView s (take_file libraries s file text).0
  unfolding take_file
  take_file-SameView s file text =
      elim (Bool-cases (is_identical libraries s (libraries.new_sha256 text))) [
        | inl e ↦ rw (e, take_file) (refl, refl)
        | inr e ↦ elim (Option-cases (libraries.decode_json text)) [
          | inl p ↦ rw (e, p, take_file) (refl, refl)
          | inr (v, p) ↦ rw (e, p, take_file) (refl, refl)
        ]
      ]

  take_slurm-SameView : (s : State) (text : Text) → SameView s (take_slurm libraries s text).0
  unfolding take_slurm
  take_slurm-SameView s text = elim (Option-cases (libraries.decode_json_slurm text)) [
    | inl p ↦ rw (p, take_slurm) (refl, refl)
    | inr (v, p) ↦ rw (p, take_slurm) (refl, refl)
  ]

  update_after-SameView :
      (s : State) (file : Text) (result : Fetched)
      → SameView s (update_after libraries s file result).0
  unfolding update_after
  update_after-SameView s file (failed e code lastrefresh) = (refl, refl)
  update_after-SameView s file (fetched text code lastrefresh) =
      let (a, b) = note_fetch-SameView s code lastrefresh in
      let (c, d) = take_file-SameView (note_fetch s code lastrefresh) file text in (c ∙ a, d ∙ b)

  update_slurm_after-SameView :
      (s : State) (result : Fetched) → SameView s (update_slurm_after libraries s result).0
  unfolding update_slurm_after
  update_slurm_after-SameView s (failed e code lastrefresh) = (refl, refl)
  update_slurm_after-SameView s (fetched text code lastrefresh) =
      let (a, b) = note_fetch-SameView s code lastrefresh in
      let (c, d) = take_slurm-SameView (note_fetch s code lastrefresh) text in (c ∙ a, d ∙ b)

  update_file-SameView :
      (s : State) (outside : Outside) (now : ℕ) (file : Text)
      → SameView s (update_file libraries s outside now file).0
  unfolding update_file
  update_file-SameView s outside now file =
      let (config, result) = fetch_file libraries.parse_http_time s.fetch_config outside file in
      let s1 = record s { lastts = now; fetch_config = config } in
      update_after-SameView s1 file result

  update_slurm_if_named-SameView :
      (s : State) (outside : Outside) (slurm_file : Text)
      → SameView s (update_slurm_if_named libraries s outside slurm_file).0
  unfolding update_slurm_if_named update_slurm
  update_slurm_if_named-SameView s outside slurm_file =
      let (config, result) =
        fetch_file libraries.parse_http_time s.fetch_config outside slurm_file in
      let s1 = record s { fetch_config = config } in
      elim (Bool-cases (length slurm_file == 0)) [
        | inl e ↦ rw (e, update_slurm_if_named) (refl, refl)
        | inr e ↦ rw (e, update_slurm_if_named) (update_slurm_after-SameView s1 result)
      ]

module _ (ipnet_string : IpNet → Text) (parse_cidr : Text → Option IpNet)
    (uint32_of_float : ℕ → ℕ) where
  -- the VRPs that the server is given for an exported list
  abbrev pub vrps_of : VrpList → List Vrp
  vrps_of list = (process_data ipnet_string parse_cidr uint32_of_float (or_nothing list.data_of)).0

  -- The exporter shows a list whose valid VRPs have exactly the keys of the server's list, and that
  -- has as many entries as its metadata says.
  pub record IsExported (s : State) : Type 0 where
    pub cache : IsCache ipnet_string s.server
    pub shown :
        (k : Text)
        → holds ipnet_string s.server.vrp_current k ≡ holds ipnet_string (vrps_of (exporter s)) k
    pub counted : (exporter s).metadata.counts ≡ length (or_nothing (exporter s).data_of)

  same-IsExported : (s t : State) → SameView s t → IsExported s → IsExported t
  unfolding exporter
  same-IsExported s t (a, b) h = record {
    cache = rw a h.cache;
    shown = rw (a, b) h.shown;
    counted = rw b h.counted;
  }

  module _ (number_int64 : Text → ℤ) (parse_time : Text → Option ℕ) where
    new_vrps-IsExported :
        (s : State) (vrpsjson : List VrpJson)
        → IsExported s
        → IsExported
            (new_vrps ipnet_string parse_cidr uint32_of_float number_int64 parse_time s vrpsjson)
    unfolding new_vrps exporter
    new_vrps-IsExported s vrpsjson h =
        let vrps = (process_data ipnet_string parse_cidr uint32_of_float vrpsjson).0 in
        record {
          cache = add_vrps-IsCache ipnet_string s.server vrps h.cache;
          shown = λ k. holds-add_vrps ipnet_string s.server vrps k h.cache;
          counted = refl;
        }

    data-IsExported :
        (s : State) (now : ℕ) (o : Option (List VrpJson))
        → IsExported s
        → IsExported (
            state_after (
              update_from_data ipnet_string parse_cidr uint32_of_float number_int64 parse_time s now
                o))
    unfolding update_from_data
    data-IsExported s now none h = h
    data-IsExported s now (some v) h =
        let stale =
          is_stale ipnet_string parse_cidr uint32_of_float number_int64 parse_time now
            s.lastdata.metadata.buildtime in
        elim (Bool-cases (s.checktime && stale)) [
          | inl e ↦ rw (e, update_from_data) h
          | inr e ↦ rw (e, update_from_data) (new_vrps-IsExported s _ h)
        ]

    module _ (libraries : Libraries) where
      renew-IsExported :
          (s : State) (now : ℕ)
          → IsExported s
          → IsExported (
              renew ipnet_string parse_cidr uint32_of_float number_int64 parse_time libraries s now)
      unfolding renew update_from_new_state
      renew-IsExported s now h = data-IsExported s now s.lastdata.data_of h

      if-IsExported :
          (s : State) (changed : Bool) (now : ℕ)
          → IsExported s
          → IsExported (
              if changed
              then renew ipnet_string parse_cidr uint32_of_float number_int64 parse_time libraries s
                  now
              else s)
      if-IsExported s true now h = renew-IsExported s now h
      if-IsExported s false now h = h

      pub routine_turn-IsExported :
          (s : State) (m : Moment) (file slurm_file : Text)
          → IsExported s
          → IsExported (
              routine_turn ipnet_string parse_cidr uint32_of_float number_int64 parse_time libraries
                s m file slurm_file)
      unfolding routine_turn
      routine_turn-IsExported s m file slurm_file h =
          let (s1, slurm_updated) = update_slurm_if_named libraries s m.at_slurm slurm_file in
          let (s2, cache_updated, _) = update_file libraries s1 m.at_file m.now file in
          let h1 =
            same-IsExported s s1 (update_slurm_if_named-SameView libraries s m.at_slurm slurm_file)
              h in
          if-IsExported s2 (cache_updated || slurm_updated) m.later
            (same-IsExported s1 s2 (update_file-SameView libraries s1 m.at_file m.now file) h1)

      pub run_start-IsExported :
          (s : State) (m : Moment) (file slurm_file : Text)
          → IsExported s
          → IsExported (
              run_start ipnet_string parse_cidr uint32_of_float number_int64 parse_time libraries s
                m file slurm_file)
      unfolding run_start
      run_start-IsExported s m file slurm_file h =
          let (s1, cache_updated, _) = update_file libraries s m.at_file m.now file in
          let (s2, slurm_updated) = update_slurm_if_named libraries s1 m.at_slurm slurm_file in
          let h1 = same-IsExported s s1 (update_file-SameView libraries s m.at_file m.now file) h in
          renew-IsExported s2 m.later (
            same-IsExported s1 s2
              (update_slurm_if_named-SameView libraries s1 m.at_slurm slurm_file) h1)
