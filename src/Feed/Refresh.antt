-- ===== src/Feed/Refresh.antt =====
-- cmd/stayrtr/stayrtr.go: the file and the local exceptions are fetched again and again.
use stayrtr.Prelude.{
  ℕ, Bool, true, false, not, Option, none, some, [], ◌∷◌, ◌++◌, Text, text_eq, length, ◌==◌,
  if◌then◌else◌,
}
use stayrtr.Prelude.Int.{ℤ, pos, negsuc}
use stayrtr.Prefixfile.{VrpList}
use stayrtr.Prefixfile.Slurm.{SlurmConfig}
use stayrtr.Fetch.{Outside, FetchError, Fetched, fetched, failed, fetch_file}
use stayrtr.Feed.State.{State}

-- What updateFile and updateSlurm return as an error.
pub data UpdateError : Type 0 where
  fetch_error : FetchError → UpdateError
  identical_file : Text → UpdateError
  undecodable : UpdateError

unfoldable pub is_minus_one : ℤ → Bool
is_minus_one (pos n) = false
is_minus_one (negsuc n) = n == 0

-- the metrics that are set after a fetch without an error
unfoldable pub note_fetch : State → ℤ → Bool → State
unfolding is_minus_one
note_fetch s code lastrefresh =
    let s1 =
      if lastrefresh then record s { last_refresh = s.last_refresh ++ (s.lastts ∷ []) } else s in
    if not (is_minus_one code)
    then record s1 { refresh_status_code = s1.refresh_status_code ++ (code ∷ []) }
    else s1

-- The libraries that the daemon calls: http.ParseTime, the SHA-256 sum, and the decoders of the JSON
-- file and of the local exceptions, `none` for an error.
pub record Libraries : Type 0 where
  pub parse_http_time : Text → Option ℕ
  pub new_sha256 : Text → Text
  pub decode_json : Text → Option VrpList
  pub decode_json_slurm : Text → Option SlurmConfig

module _ (libraries : Libraries) where
  open libraries use {parse_http_time, new_sha256, decode_json, decode_json_slurm}

  -- does the data have the hash of the data that was decoded last?
  unfoldable pub is_identical : State → Text → Bool
  is_identical s hsum = elim (s.lasthash) [ none ↦ false | some lasthash ↦ text_eq lasthash hsum ]

  -- updateFile, from the data on
  unfoldable pub take_file : State → Text → Text → State × Bool × Option UpdateError
  take_file s file text =
      if is_identical s (new_sha256 text)
      then (s, false, some (identical_file file))
      else elim (decode_json text) [
        | none ↦ (s, false, some undecodable)
        | some vrplistjson ↦ (
          record s {
            lasthash = some (new_sha256 text);
            lastchange = some s.lastts;
            lastdata = vrplistjson;
          },
          true,
          none,
        )
      ]

  -- updateFile, once the fetch has returned
  unfoldable pub update_after : State → Text → Fetched → State × Bool × Option UpdateError
  update_after s file (failed e code lastrefresh) = (s, false, some (fetch_error e))
  update_after s file (fetched text code lastrefresh) =
      take_file (note_fetch s code lastrefresh) file text

  -- updateFile at the time `now`, which stands for both of its calls of time.Now
  unfoldable pub update_file : State → Outside → ℕ → Text → State × Bool × Option UpdateError
  update_file s outside now file =
      let (config, result) = fetch_file parse_http_time s.fetch_config outside file in
      update_after (record s { lastts = now; fetch_config = config }) file result

  unfoldable pub take_slurm : State → Text → State × Bool × Option UpdateError
  take_slurm s text = elim (decode_json_slurm text) [
    | none ↦ (s, false, some undecodable)
    | some slurm ↦ (record s { slurm = some slurm }, true, none)
  ]

  -- updateSlurm, once the fetch has returned
  unfoldable pub update_slurm_after : State → Fetched → State × Bool × Option UpdateError
  update_slurm_after s (failed e code lastrefresh) = (s, false, some (fetch_error e))
  update_slurm_after s (fetched text code lastrefresh) =
      take_slurm (note_fetch s code lastrefresh) text

  unfoldable pub update_slurm : State → Outside → Text → State × Bool × Option UpdateError
  update_slurm s outside file =
      let (config, result) = fetch_file parse_http_time s.fetch_config outside file in
      update_slurm_after (record s { fetch_config = config }) result

module _ (libraries : Libraries) where
  -- updateSlurm, where a file of local exceptions is named
  unfoldable pub update_slurm_if_named : State → Outside → Text → State × Bool
  update_slurm_if_named s outside slurm_file =
      if length slurm_file == 0
      then (s, false)
      else let (s', updated_slurm, _) = update_slurm libraries s outside slurm_file in
        (s', updated_slurm)
