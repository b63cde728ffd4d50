-- ===== src/Feed/Turns.antt =====
-- cmd/stayrtr/stayrtr.go: run and routineUpdate, from the start over any number of turns.
use stayrtr.Prelude.{ℕ, Bool, ◌||◌, Option, none, [], Text, if◌then◌else◌}
use stayrtr.Prelude.Int.{ℤ}
use stayrtr.Net.{IpNet}
use stayrtr.Server.{Server}
use stayrtr.Fetch.{FetchConfig, Outside}
use stayrtr.Feed.State.{State, update_from_new_state, state_after}
use stayrtr.Feed.Refresh.{Libraries, update_file, update_slurm_if_named}

-- The state that run makes for a server, from the flags for notifications, for the check of the
-- file's time and for the fetching.
unfoldable pub initial_state : Server → Bool → Bool → FetchConfig → State
initial_state server send_notifs checktime fetch_config = record {
  lastdata = record { metadata = record { counts = 0; buildtime = [] }; data_of = none };
  lasthash = none;
  lastchange = none;
  lastts = 0;
  send_notifs = send_notifs;
  fetch_config = fetch_config;
  server = server;
  exported = record { metadata = record { counts = 0; buildtime = [] }; data_of = none };
  slurm = none;
  checktime = checktime;
  last_refresh = [];
  refresh_status_code = [];
}

-- What a turn meets outside: when each of the two files is fetched, and the times of the fetch and of
-- the check of the file's time.
pub record Moment : Type 0 where
  pub at_slurm : Outside
  pub at_file : Outside
  pub now : ℕ
  pub later : ℕ

module _ (ipnet_string : IpNet → Text) (parse_cidr : Text → Option IpNet) (uint32_of_float : ℕ → ℕ)
    (number_int64 : Text → ℤ) (parse_time : Text → Option ℕ) (libraries : Libraries) where
  unfoldable pub renew : State → ℕ → State
  renew s now =
      state_after (
        update_from_new_state ipnet_string parse_cidr uint32_of_float number_int64 parse_time s now)

  -- one turn of routineUpdate, after its delay
  unfoldable pub routine_turn : State → Moment → Text → Text → State
  routine_turn s m file slurm_file =
      let (s1, slurm_updated) = update_slurm_if_named libraries s m.at_slurm slurm_file in
      let (s2, cache_updated, _) = update_file libraries s1 m.at_file m.now file in
      if cache_updated || slurm_updated then renew s2 m.later else s2

  -- run, up to its call of routineUpdate
  unfoldable pub run_start : State → Moment → Text → Text → State
  run_start s m file slurm_file =
      let (s1, cache_updated, _) = update_file libraries s m.at_file m.now file in
      let (s2, slurm_updated) = update_slurm_if_named libraries s1 m.at_slurm slurm_file in
      renew s2 m.later

  -- The states that the daemon can be in between two turns. The file of local exceptions is
  -- `slurm_refresh` after the start, which is "" if they are not to be refreshed.
  pub data Reach (s : State) (file slurm_file slurm_refresh : Text) : State → Type 0 where
    started : (m : Moment) → Reach s file slurm_file slurm_refresh (run_start s m file slurm_file)
    turned :
        {t : State} (m : Moment)
        → Reach s file slurm_file slurm_refresh t
        → Reach s file slurm_file slurm_refresh (routine_turn t m file slurm_refresh)
