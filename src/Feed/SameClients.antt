-- ===== src/Feed/SameClients.antt =====
-- The daemon's turns and the clients of its server (cmd/stayrtr/stayrtr.go, updateFromNewState).
use stayrtr.Prelude.{
  ℕ, ◌≡◌, refl, ap, ◌∙◌, Bool, true, false, ◌&&◌, ◌||◌, Option, none, some, List, Text, Bool-cases,
  inl, inr, if◌then◌else◌,
}
use stayrtr.Prelude.Int.{ℤ}
use stayrtr.Net.{IpNet}
use stayrtr.Prefixfile.{VrpJson}
use stayrtr.Server.{Server, add_vrps, add_vrps_diff, add_serial}
use stayrtr.Feed.State.{
  State, state_after, is_stale, new_vrps, update_from_data, update_from_new_state,
}
use stayrtr.Feed.Refresh.{Libraries, update_file, update_slurm_if_named}
use stayrtr.Feed.Turns.{Moment, renew, run_start, routine_turn}
use stayrtr.Feed.Keeps.{update_file-KeepsOldData, update_slurm_if_named-KeepsOldSlurm}

-- The second server has the clients, their count and the limit of the first.
abbrev pub SameClients : Server → Server → Type 0
SameClients s t = (t.clients ≡ s.clients) × (t.connected ≡ s.connected) × (t.maxconn ≡ s.maxconn)

module _ (ipnet_string : IpNet → Text) (parse_cidr : Text → Option IpNet) (uint32_of_float : ℕ → ℕ)
    (number_int64 : Text → ℤ) (parse_time : Text → Option ℕ) where
  abbrev after_data : State → ℕ → Option (List VrpJson) → State
  after_data s now o =
      state_after
        (update_from_data ipnet_string parse_cidr uint32_of_float number_int64 parse_time s now o)

  data-SameClients :
      (s : State) (now : ℕ) (o : Option (List VrpJson))
      → SameClients s.server (after_data s now o).server
  unfolding update_from_data new_vrps add_vrps add_vrps_diff add_serial
  data-SameClients s now none = (refl, refl, refl)
  data-SameClients s now (some v) =
      let stale =
        is_stale ipnet_string parse_cidr uint32_of_float number_int64 parse_time now
          s.lastdata.metadata.buildtime in
      elim (Bool-cases (s.checktime && stale)) [
        | inl e ↦ rw (e, update_from_data) (refl, refl, refl)
        | inr e ↦ rw (e, update_from_data) (refl, refl, refl)
      ]

  module _ (libraries : Libraries) where
    abbrev renewed : State → ℕ → State
    renewed s now =
        renew ipnet_string parse_cidr uint32_of_float number_int64 parse_time libraries s now

    renew-SameClients : (s : State) (now : ℕ) → SameClients s.server (renewed s now).server
    unfolding renew update_from_new_state
    renew-SameClients s now = data-SameClients s now s.lastdata.data_of

    turn-SameClients :
        (s t : State) (changed : Bool) (later : ℕ)
        → t.server ≡ s.server
        → SameClients s.server (if changed then renewed t later else t).server
    turn-SameClients s t true later e =
        let (clients, connected, maxconn) = renew-SameClients t later in
        (
          clients ∙ ap (λ x. x.clients) e,
          connected ∙ ap (λ x. x.connected) e,
          maxconn ∙ ap (λ x. x.maxconn) e,
        )
    turn-SameClients s t false later e =
        (ap (λ x. x.clients) e, ap (λ x. x.connected) e, ap (λ x. x.maxconn) e)

    -- A turn of the daemon leaves the clients of its server, their count and the limit as they are.
    pub routine_turn-SameClients :
        (s : State) (m : Moment) (file slurm_file : Text)
        → SameClients s.server
            (routine_turn ipnet_string parse_cidr uint32_of_float number_int64 parse_time libraries
              s m file slurm_file).server
    unfolding routine_turn
    routine_turn-SameClients s m file slurm_file =
        let (s1, slurm_updated) = update_slurm_if_named libraries s m.at_slurm slurm_file in
        let (s2, cache_updated, _) = update_file libraries s1 m.at_file m.now file in
        turn-SameClients s s2 (cache_updated || slurm_updated) m.later (
          (update_file-KeepsOldData libraries s1 m.at_file m.now file).0
          ∙ (update_slurm_if_named-KeepsOldSlurm libraries s m.at_slurm slurm_file).0)

    -- The start of run leaves them as they are too.
    pub run_start-SameClients :
        (s : State) (m : Moment) (file slurm_file : Text)
        → SameClients s.server
            (run_start ipnet_string parse_cidr uint32_of_float number_int64 parse_time libraries s m
              file slurm_file).server
    unfolding run_start
    run_start-SameClients s m file slurm_file =
        let (s1, cache_updated, _) = update_file libraries s m.at_file m.now file in
        let (s2, slurm_updated) = update_slurm_if_named libraries s1 m.at_slurm slurm_file in
        turn-SameClients s s2 true m.later (
          (update_slurm_if_named-KeepsOldSlurm libraries s1 m.at_slurm slurm_file).0
          ∙ (update_file-KeepsOldData libraries s m.at_file m.now file).0)
