-- ===== src/Feed/Latest.antt =====
-- What the daemon decoded last, told from its fetches alone (cmd/stayrtr/stayrtr.go: updateFile,
-- updateSlurm, run and routineUpdate).
use stayrtr.Prelude.{
  ℕ, ◌≡◌, refl, ap, ◌∙◌, arith, Bool, true, false, ◌&&◌, ◌||◌, Option, none, some, List, [], ◌∷◌,
  Text, text_eq, length, ◌==◌, if◌then◌else◌, Bool-cases, Option-cases, inl, inr,
}
use stayrtr.Prelude.Int.{ℤ}
use stayrtr.Net.{IpNet}
use stayrtr.Prefixfile.{VrpJson, VrpList}
use stayrtr.Prefixfile.Slurm.{SlurmConfig}
use stayrtr.Fetch.{FetchConfig, Outside, Fetched, fetched, failed, fetch_file}
use stayrtr.Feed.State.{
  State, state_after, update_from_data, update_from_new_state, new_vrps, is_stale,
}
use stayrtr.Feed.Refresh.{
  Libraries, is_minus_one, note_fetch, is_identical, take_file, update_after, update_file,
  take_slurm, update_slurm_after, update_slurm, update_slurm_if_named,
}
use stayrtr.Feed.Turns.{Moment, renew, run_start, routine_turn, Reach, started, turned}

-- What was decoded last: the file, with the hash of its bytes, and the local exceptions; and what is
-- known for the next fetch.
pub record Latest : Type 0 where
  pub file : VrpList
  pub hash : Option Text
  pub exceptions : Option SlurmConfig
  pub fetch_config : FetchConfig

-- what a state says of it
abbrev pub latest_of : State → Latest
latest_of s = record {
  file = s.lastdata;
  hash = s.lasthash;
  exceptions = s.slurm;
  fetch_config = s.fetch_config;
}

abbrev pub is_known : Option Text → Text → Bool
is_known none sum = false
is_known (some hash) sum = text_eq hash sum

module _ (libraries : Libraries) where
  open libraries use {parse_http_time, new_sha256, decode_json, decode_json_slurm}

  -- A fetched file counts if its bytes are not those of the last one and if they can be decoded.
  abbrev pub take_news : Latest → Fetched → Latest
  take_news l (failed e code last) = l
  take_news l (fetched text code last) =
      if is_known l.hash (new_sha256 text) then l else elim (decode_json text) [
        | none ↦ l
        | some file ↦ record l { file = file; hash = some (new_sha256 text) }
      ]

  -- Fetched exceptions count if they can be decoded.
  abbrev pub take_exceptions : Latest → Fetched → Latest
  take_exceptions l (failed e code last) = l
  take_exceptions l (fetched text code last) = elim (decode_json_slurm text) [
    | none ↦ l
    | some slurm ↦ record l { exceptions = some slurm }
  ]

  -- the fetch of the file
  abbrev pub after_file : Latest → Outside → Text → Latest
  after_file l outside file =
      let (config, result) = fetch_file parse_http_time l.fetch_config outside file in
      take_news (record l { fetch_config = config }) result

  -- the fetch of the exceptions, where a file of them is named
  abbrev pub after_exceptions : Latest → Outside → Text → Latest
  after_exceptions l outside [] = l
  after_exceptions l outside (c ∷ name) =
      let (config, result) = fetch_file parse_http_time l.fetch_config outside (c ∷ name) in
      take_exceptions (record l { fetch_config = config }) result

  -- a turn fetches the exceptions first, and the start the file
  abbrev pub after_turn : Latest → Moment → Text → Text → Latest
  after_turn l m file slurm_file =
      after_file (after_exceptions l m.at_slurm slurm_file) m.at_file file

  abbrev pub after_start : Latest → Moment → Text → Text → Latest
  after_start l m file slurm_file =
      after_exceptions (after_file l m.at_file file) m.at_slurm slurm_file

  note_fetch-latest :
      (s : State) (code : ℤ) (b : Bool) → latest_of (note_fetch s code b) ≡ latest_of s
  unfolding note_fetch
  note_fetch-latest s code true = elim (Bool-cases (is_minus_one code)) [
    | inl e ↦ rw (note_fetch, e) refl
    | inr e ↦ rw (note_fetch, e) refl
  ]
  note_fetch-latest s code false = elim (Bool-cases (is_minus_one code)) [
    | inl e ↦ rw (note_fetch, e) refl
    | inr e ↦ rw (note_fetch, e) refl
  ]

  is_identical_lem :
      (s : State) (sum : Text) → is_identical libraries s sum ≡ is_known s.lasthash sum
  unfolding is_identical
  is_identical_lem s sum = elim (Option-cases s.lasthash) [
    | inl e ↦ rw (is_identical, e) refl
    | inr (h, e) ↦ rw (is_identical, e) refl
  ]

  take_file-latest :
      (s : State) (file text : Text) (code : ℤ) (b : Bool)
      → latest_of (take_file libraries s file text).0
        ≡ take_news (latest_of s) (fetched text code b)
  unfolding take_file
  take_file-latest s file text code b =
      let same = is_identical_lem s (new_sha256 text) in
      elim (Bool-cases (is_known s.lasthash (new_sha256 text))) [
        | inl e ↦ let e' = same ∙ e in rw (take_file, e', e) refl
        | inr e ↦
            let e' = same ∙ e in
            elim (Option-cases (decode_json text)) [
              | inl d ↦ rw (take_file, e', e, d) refl
              | inr (v, d) ↦ rw (take_file, e', e, d) refl
            ]
      ]

  update_after-latest :
      (s : State) (file : Text) (r : Fetched)
      → latest_of (update_after libraries s file r).0 ≡ take_news (latest_of s) r
  unfolding update_after
  update_after-latest s file (failed e code b) = refl
  update_after-latest s file (fetched text code b) =
      take_file-latest (note_fetch s code b) file text code b
      ∙ ap (λ l. take_news l (fetched text code b)) (note_fetch-latest s code b)

  take_slurm-latest :
      (s : State) (text : Text) (code : ℤ) (b : Bool)
      → latest_of (take_slurm libraries s text).0
        ≡ take_exceptions (latest_of s) (fetched text code b)
  unfolding take_slurm
  take_slurm-latest s text code b = elim (Option-cases (decode_json_slurm text)) [
    | inl d ↦ rw (take_slurm, take_exceptions, d) refl
    | inr (v, d) ↦ rw (take_slurm, take_exceptions, d) refl
  ]

  update_slurm_after-latest :
      (s : State) (r : Fetched)
      → latest_of (update_slurm_after libraries s r).0 ≡ take_exceptions (latest_of s) r
  unfolding update_slurm_after
  update_slurm_after-latest s (failed e code b) = refl
  update_slurm_after-latest s (fetched text code b) =
      take_slurm-latest (note_fetch s code b) text code b
      ∙ ap (λ l. take_exceptions l (fetched text code b)) (note_fetch-latest s code b)

  update_file-latest :
      (s : State) (outside : Outside) (now : ℕ) (file : Text)
      → latest_of (update_file libraries s outside now file).0
        ≡ after_file (latest_of s) outside file
  unfolding update_file
  update_file-latest s outside now file =
      let (config, result) = fetch_file parse_http_time s.fetch_config outside file in
      update_after-latest (record s { lastts = now; fetch_config = config }) file result

  update_slurm_if_named-latest :
      (s : State) (outside : Outside) (slurm_file : Text)
      → latest_of (update_slurm_if_named libraries s outside slurm_file).0
        ≡ after_exceptions (latest_of s) outside slurm_file
  unfolding update_slurm_if_named update_slurm
  update_slurm_if_named-latest s outside [] = refl
  update_slurm_if_named-latest s outside (c ∷ name) =
      let (config, result) = fetch_file parse_http_time s.fetch_config outside (c ∷ name) in
      let named : (length (c ∷ name) == 0) ≡ false = ground arith in
      rw (update_slurm_if_named, named)
        (update_slurm_after-latest (record s { fetch_config = config }) result)

module _ (ipnet_string : IpNet → Text) (parse_cidr : Text → Option IpNet) (uint32_of_float : ℕ → ℕ)
    (number_int64 : Text → ℤ) (parse_time : Text → Option ℕ) (libraries : Libraries) where
  renew-latest :
      (s : State) (now : ℕ)
      → latest_of
          (renew ipnet_string parse_cidr uint32_of_float number_int64 parse_time libraries s now)
        ≡ latest_of s
  unfolding renew update_from_new_state update_from_data new_vrps
  renew-latest s now =
      let after = λ (o : Option (List VrpJson)). state_after (
        update_from_data ipnet_string parse_cidr uint32_of_float number_int64 parse_time s now o) in
      let stale =
        is_stale ipnet_string parse_cidr uint32_of_float number_int64 parse_time now
          s.lastdata.metadata.buildtime in
      elim (Option-cases s.lastdata.data_of) [
        | inl e ↦ ap (λ o. latest_of (after o)) e
        | inr (v, e) ↦
            ap (λ o. latest_of (after o)) e
            ∙ elim (Bool-cases (s.checktime && stale)) [ inl b ↦ rw b refl | inr b ↦ rw b refl ]
      ]

  pub routine_turn-latest :
      (s : State) (m : Moment) (file slurm_file : Text)
      → latest_of (
          routine_turn ipnet_string parse_cidr uint32_of_float number_int64 parse_time libraries s m
            file slurm_file)
        ≡ after_turn libraries (latest_of s) m file slurm_file
  unfolding routine_turn
  routine_turn-latest s m file slurm_file =
      let (s1, slurm_updated) = update_slurm_if_named libraries s m.at_slurm slurm_file in
      let (s2, cache_updated, _) = update_file libraries s1 m.at_file m.now file in
      let fetches : latest_of s2 ≡ after_turn libraries (latest_of s) m file slurm_file =
        update_file-latest libraries s1 m.at_file m.now file
        ∙ ap (λ l. after_file libraries l m.at_file file)
            (update_slurm_if_named-latest libraries s m.at_slurm slurm_file) in
      elim (Bool-cases (cache_updated || slurm_updated)) [
        | inl e ↦ rw e (renew-latest s2 m.later ∙ fetches)
        | inr e ↦ rw e fetches
      ]

  pub run_start-latest :
      (s : State) (m : Moment) (file slurm_file : Text)
      → latest_of (
          run_start ipnet_string parse_cidr uint32_of_float number_int64 parse_time libraries s m
            file slurm_file)
        ≡ after_start libraries (latest_of s) m file slurm_file
  unfolding run_start
  run_start-latest s m file slurm_file =
      let (s1, cache_updated, _) = update_file libraries s m.at_file m.now file in
      let (s2, slurm_updated) = update_slurm_if_named libraries s1 m.at_slurm slurm_file in
      renew-latest s2 m.later
      ∙ update_slurm_if_named-latest libraries s1 m.at_slurm slurm_file
      ∙ ap (λ l. after_exceptions libraries l m.at_slurm slurm_file)
          (update_file-latest libraries s m.at_file m.now file)

  -- what the daemon decoded last, of what its fetches returned since its start
  abbrev pub decoded_last :
      {s : State} {file slurm_file slurm_refresh : Text} {t : State}
      → Reach ipnet_string parse_cidr uint32_of_float number_int64 parse_time libraries s file
          slurm_file slurm_refresh t
      → Latest
  decoded_last {s} {file = file} {slurm_file = slurm_file} (started m) =
      after_start libraries (latest_of s) m file slurm_file
  decoded_last {file = file} {slurm_refresh = slurm_refresh} (turned m r) =
      after_turn libraries (decoded_last r) m file slurm_refresh

  pub Reach-latest :
      {s : State} {file slurm_file slurm_refresh : Text} {t : State}
      → (r : Reach ipnet_string parse_cidr uint32_of_float number_int64 parse_time libraries s file
          slurm_file slurm_refresh t)
      → latest_of t ≡ decoded_last r
  Reach-latest {s} {file = file} {slurm_file = slurm_file} (started m) =
      run_start-latest s m file slurm_file
  Reach-latest {file = file} {slurm_refresh = slurm_refresh} (turned {t = t} m r) =
      routine_turn-latest t m file slurm_refresh
      ∙ ap (λ l. after_turn libraries l m file slurm_refresh) (Reach-latest r)
