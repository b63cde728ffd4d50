-- ===== src/Feed/Fed.antt =====
-- The server over the daemon's turns: what it holds, and what the file and the exceptions say.
use stayrtr.Prelude.Options.{or_nothing}
use stayrtr.Prelude.{
  ℕ, ◌≡◌, refl, ap, ◌∙◌, sym, arith, Bool, true, false, ◌||◌, ◌&&◌, Option, none, some, List, ◌++◌,
  Text, inl, inr, if◌then◌else◌, Bool-cases, Option-cases,
}
use stayrtr.Prelude.Int.{ℤ}
use stayrtr.Net.{IpNet}
use stayrtr.Diff.Replay.{holds}
use stayrtr.Vrp.{Vrp}
use stayrtr.Prefixfile.{VrpJson}
use stayrtr.Prefixfile.Slurm.{SlurmConfig, filter_on_vrps, assert_vrps}
use stayrtr.Server.Query.{IsCache, add_vrps-IsCache, holds-add_vrps}
use stayrtr.Feed.{process_data}
use stayrtr.Feed.State.{
  state_after, update_from_data, State, with_exceptions, update_from_new_state, new_vrps, is_stale,
}
use stayrtr.Feed.Refresh.{Libraries, update_file, update_slurm_if_named}
use stayrtr.Feed.Turns.{Moment, renew, routine_turn, run_start, Reach, started, turned}
use stayrtr.Feed.Keeps.{
  KeepsAll, KeepsOldData, KeepsOldSlurm, update_file-KeepsOldData,
  update_slurm_if_named-KeepsOldSlurm,
}

or_true : (b : Bool) → (b || true) ≡ true
or_true true = refl
or_true false = refl

module _ (ipnet_string : IpNet → Text) (parse_cidr : Text → Option IpNet) (uint32_of_float : ℕ → ℕ)
    (number_int64 : Text → ℤ) (parse_time : Text → Option ℕ) (libraries : Libraries) where
  -- The entries of a file that the filters of the local exceptions keep, and then the asserted ones.
  abbrev pub excepted : Option SlurmConfig → List VrpJson → List VrpJson
  excepted none vrpsjson = vrpsjson
  excepted (some slurm) vrpsjson =
      (filter_on_vrps parse_cidr uint32_of_float number_int64 slurm vrpsjson).0
      ++ assert_vrps parse_cidr uint32_of_float number_int64 slurm

  -- the valid VRPs of a file under local exceptions
  abbrev pub valid_vrps : Option SlurmConfig → List VrpJson → List Vrp
  valid_vrps exceptions vrpsjson =
      (process_data ipnet_string parse_cidr uint32_of_float (excepted exceptions vrpsjson)).0

  abbrev wanted : State → List VrpJson → List Vrp
  wanted s vrpsjson = valid_vrps s.slurm vrpsjson

  with_exceptions_lem :
      (exceptions : Option SlurmConfig) (vrpsjson : List VrpJson)
      → with_exceptions ipnet_string parse_cidr uint32_of_float number_int64 parse_time exceptions
          vrpsjson
        ≡ excepted exceptions vrpsjson
  unfolding with_exceptions
  with_exceptions_lem none vrpsjson = refl
  with_exceptions_lem (some slurm) vrpsjson = refl

  -- The server's cache is well linked with announced entries, the age of the file is not checked, and
  -- where the state's file has a list, the server's current list has exactly the keys
  -- of its valid VRPs under the state's local exceptions.
  pub record IsFed (s : State) : Type 0 where
    pub cache : IsCache ipnet_string s.server
    pub unchecked : s.checktime ≡ false
    pub fed :
        (vrpsjson : List VrpJson)
        → s.lastdata.data_of ≡ some vrpsjson
        → (k : Text)
        → holds ipnet_string s.server.vrp_current k ≡ holds ipnet_string (wanted s vrpsjson) k

  KeepsAll-IsFed : (s t : State) → KeepsAll s t → IsFed s → IsFed t
  KeepsAll-IsFed s t (a, b, c, d) f = record {
    cache = rw a f.cache;
    unchecked = b ∙ f.unchecked;
    fed = rw (a, c, d) f.fed;
  }

  abbrev renewed : State → ℕ → State
  renewed s now =
      renew ipnet_string parse_cidr uint32_of_float number_int64 parse_time libraries s now

  abbrev after_data : State → ℕ → Option (List VrpJson) → State
  after_data s now o =
      state_after
        (update_from_data ipnet_string parse_cidr uint32_of_float number_int64 parse_time s now o)

  renew-some :
      (s : State) (now : ℕ) (v : List VrpJson)
      → s.lastdata.data_of ≡ some v
      → s.checktime ≡ false
      → renewed s now
        ≡ new_vrps ipnet_string parse_cidr uint32_of_float number_int64 parse_time s
            (excepted s.slurm v)
  unfolding renew update_from_new_state update_from_data
  renew-some s now v e unchecked =
      let stale =
        is_stale ipnet_string parse_cidr uint32_of_float number_int64 parse_time now
          s.lastdata.metadata.buildtime in
      let fresh : (s.checktime && stale) ≡ false = ap (λ b. b && stale) unchecked in
      ap (after_data s now) e
      ∙ rw fresh refl
      ∙ ap (new_vrps ipnet_string parse_cidr uint32_of_float number_int64 parse_time s)
          (with_exceptions_lem s.slurm v)

  renew-none : (s : State) (now : ℕ) → s.lastdata.data_of ≡ none → renewed s now ≡ s
  unfolding renew update_from_new_state update_from_data
  renew-none s now e = ap (after_data s now) e

  -- an update from the state that was fetched
  renew-IsFed :
      (s : State) (now : ℕ)
      → IsCache ipnet_string s.server
      → s.checktime ≡ false
      → IsFed (renewed s now)
  unfolding new_vrps
  renew-IsFed s now cache unchecked = elim (Option-cases s.lastdata.data_of) [
    | inl e ↦ rw (renew-none s now e) (record {
      cache = cache;
      unchecked = unchecked;
      fed = λ v p. absurd (ground (arith, e, p));
    })
    | inr (v, e) ↦ rw (renew-some s now v e unchecked) (record {
      cache = add_vrps-IsCache ipnet_string s.server (wanted s v) cache;
      unchecked = unchecked;
      fed = λ v' p k.
          holds-add_vrps ipnet_string s.server (wanted s v) k cache
          ∙ ap (λ o. holds ipnet_string (wanted s (or_nothing o)) k) (sym e ∙ p);
    })
  ]

  turn-IsFed :
      (s s1 s2 : State) (slurm_updated cache_updated : Bool) (later : ℕ)
      → KeepsOldSlurm s s1 slurm_updated
      → KeepsOldData s1 s2 cache_updated
      → IsFed s
      → IsFed (if cache_updated || slurm_updated then renewed s2 later else s2)
  turn-IsFed s s1 s2 slurm_updated cache_updated later (a, b, c, d) (a', b', c', d') f =
      let cache : IsCache ipnet_string s2.server = rw (a' ∙ a) f.cache in
      let unchecked : s2.checktime ≡ false = b' ∙ b ∙ f.unchecked in
      elim d [
        | inl e ↦ rw (e, or_true cache_updated) (renew-IsFed s2 later cache unchecked)
        | inr same ↦ elim c' [
          | inl e' ↦ rw e' (renew-IsFed s2 later cache unchecked)
          | inr same' ↦ elim (Bool-cases (cache_updated || slurm_updated)) [
            | inl e ↦ rw e (renew-IsFed s2 later cache unchecked)
            | inr e ↦ rw e (KeepsAll-IsFed s s2 (a' ∙ a, b' ∙ b, same' ∙ c, d' ∙ same) f)
          ]
        ]
      ]

  pub routine_turn-IsFed :
      (s : State) (m : Moment) (file slurm_file : Text)
      → IsFed s
      → IsFed (
          routine_turn ipnet_string parse_cidr uint32_of_float number_int64 parse_time libraries s m
            file slurm_file)
  unfolding routine_turn
  routine_turn-IsFed s m file slurm_file f =
      let (s1, slurm_updated) = update_slurm_if_named libraries s m.at_slurm slurm_file in
      let (s2, cache_updated, _) = update_file libraries s1 m.at_file m.now file in
      turn-IsFed s s1 s2 slurm_updated cache_updated m.later
        (update_slurm_if_named-KeepsOldSlurm libraries s m.at_slurm slurm_file)
        (update_file-KeepsOldData libraries s1 m.at_file m.now file) f

  pub run_start-IsFed :
      (s : State) (m : Moment) (file slurm_file : Text)
      → IsCache ipnet_string s.server
      → s.checktime ≡ false
      → IsFed (
          run_start ipnet_string parse_cidr uint32_of_float number_int64 parse_time libraries s m
            file slurm_file)
  unfolding run_start
  run_start-IsFed s m file slurm_file cache unchecked =
      let (s1, cache_updated, _) = update_file libraries s m.at_file m.now file in
      let (s2, slurm_updated) = update_slurm_if_named libraries s1 m.at_slurm slurm_file in
      let (a, b, _, _) = update_file-KeepsOldData libraries s m.at_file m.now file in
      let (a', b', _, _) = update_slurm_if_named-KeepsOldSlurm libraries s1 m.at_slurm slurm_file in
      renew-IsFed s2 m.later (rw (a' ∙ a) cache) (b' ∙ b ∙ unchecked)

  -- From a start with a server whose cache is well linked with announced entries, and with the check
  -- of the file's age turned off, the daemon's server has, after any number of turns and whatever the
  -- fetches return, exactly the keys of the valid VRPs of the state's file, under the state's
  -- exceptions, where that file has a list at all.
  pub Reach-IsFed :
      {s : State} {file slurm_file slurm_refresh : Text} {t : State}
      → IsCache ipnet_string s.server
      → s.checktime ≡ false
      → Reach ipnet_string parse_cidr uint32_of_float number_int64 parse_time libraries s file
          slurm_file slurm_refresh t
      → IsFed t
  Reach-IsFed {s} {file = file} {slurm_file = slurm_file} cache unchecked (started m) =
      run_start-IsFed s m file slurm_file cache unchecked
  Reach-IsFed {file = file} {slurm_refresh = slurm_refresh} cache unchecked (turned {t = t} m r) =
      routine_turn-IsFed t m file slurm_refresh (Reach-IsFed cache unchecked r)
