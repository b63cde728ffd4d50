-- ===== src/Feed/Keeps.antt =====
-- What the fetches of the daemon leave of its state (cmd/stayrtr/stayrtr.go, updateFile and
-- updateSlurm).
use stayrtr.Prelude.{
  ℕ, ◌≡◌, refl, ◌∙◌, Bool, true, false, Text, ◌⊎◌, inl, inr, Bool-cases, Option-cases, length, ◌==◌,
}
use stayrtr.Prelude.Int.{ℤ}
use stayrtr.Fetch.{FetchConfig, Outside, Fetched, fetched, failed, fetch_file}
use stayrtr.Feed.State.{State}
use stayrtr.Feed.Refresh.{
  Libraries, is_minus_one, note_fetch, update_after, take_slurm, update_slurm_after, is_identical,
  take_file, update_file, update_slurm, update_slurm_if_named,
}

-- `t` has the server, the data, the exceptions and the check of the time of `s`.
abbrev pub KeepsAll : State → State → Type 0
KeepsAll s t =
    (t.server ≡ s.server)
    × (t.checktime ≡ s.checktime)
    × (t.lastdata ≡ s.lastdata)
    × (t.slurm ≡ s.slurm)

-- As `KeepsAll`, but for the data if `changed` is true.
abbrev pub KeepsOldData : State → State → Bool → Type 0
KeepsOldData s t changed =
    (t.server ≡ s.server)
    × (t.checktime ≡ s.checktime)
    × ((changed ≡ true) ⊎ (t.lastdata ≡ s.lastdata))
    × (t.slurm ≡ s.slurm)

-- As `KeepsAll`, but for the exceptions if `changed` is true.
abbrev pub KeepsOldSlurm : State → State → Bool → Type 0
KeepsOldSlurm s t changed =
    (t.server ≡ s.server)
    × (t.checktime ≡ s.checktime)
    × (t.lastdata ≡ s.lastdata)
    × ((changed ≡ true) ⊎ (t.slurm ≡ s.slurm))

note_fetch-KeepsAll :
    (s : State) (code : ℤ) (lastrefresh : Bool) → KeepsAll s (note_fetch s code lastrefresh)
unfolding note_fetch
note_fetch-KeepsAll s code true = elim (Bool-cases (is_minus_one code)) [
  | inl e ↦ rw (e, note_fetch) (refl, refl, refl, refl)
  | inr e ↦ rw (e, note_fetch) (refl, refl, refl, refl)
]
note_fetch-KeepsAll s code false = elim (Bool-cases (is_minus_one code)) [
  | inl e ↦ rw (e, note_fetch) (refl, refl, refl, refl)
  | inr e ↦ rw (e, note_fetch) (refl, refl, refl, refl)
]

module _ (libraries : Libraries) where
  take_file-KeepsOldData :
      (s : State) (file text : Text)
      → let (t, changed, _) = take_file libraries s file text in KeepsOldData s t changed
  unfolding take_file
  take_file-KeepsOldData s file text =
      elim (Bool-cases (is_identical libraries s (libraries.new_sha256 text))) [
        | inl e ↦ rw (e, take_file) (refl, refl, inr refl, refl)
        | inr e ↦ elim (Option-cases (libraries.decode_json text)) [
          | inl p ↦ rw (e, p, take_file) (refl, refl, inr refl, refl)
          | inr (v, p) ↦ rw (e, p, take_file) (refl, refl, inl refl, refl)
        ]
      ]

  pub update_file-KeepsOldData :
      (s : State) (outside : Outside) (now : ℕ) (file : Text)
      → let (t, changed, _) = update_file libraries s outside now file in KeepsOldData s t changed
  unfolding update_file update_after take_file
  update_file-KeepsOldData s outside now file =
      let (config, result) = fetch_file libraries.parse_http_time s.fetch_config outside file in
      after config result
    where
      after :
          (config : FetchConfig) (result : Fetched)
          → let (t, changed, _) =
              update_after libraries
                (record s { lastts = now; fetch_config = config })
                file
                result in
            KeepsOldData s t changed
      after config (failed e code lastrefresh) = (refl, refl, inr refl, refl)
      after config (fetched text code lastrefresh) =
          let s1 = record s { lastts = now; fetch_config = config } in
          let (a, b, c, d) = note_fetch-KeepsAll s1 code lastrefresh in
          let (a', b', c', d') =
            take_file-KeepsOldData (note_fetch s1 code lastrefresh) file text in
          (
            a' ∙ a,
            b' ∙ b,
            elim c' [ inl changed ↦ inl changed | inr same ↦ inr (same ∙ c) ],
            d' ∙ d,
          )

  take_slurm-KeepsOldSlurm :
      (s : State) (text : Text)
      → let (t, changed, _) = take_slurm libraries s text in KeepsOldSlurm s t changed
  unfolding take_slurm
  take_slurm-KeepsOldSlurm s text = elim (Option-cases (libraries.decode_json_slurm text)) [
    | inl p ↦ rw (p, take_slurm) (refl, refl, refl, inr refl)
    | inr (v, p) ↦ rw (p, take_slurm) (refl, refl, refl, inl refl)
  ]

  update_slurm-KeepsOldSlurm :
      (s : State) (outside : Outside) (file : Text)
      → let (t, changed, _) = update_slurm libraries s outside file in KeepsOldSlurm s t changed
  unfolding update_slurm update_slurm_after take_slurm
  update_slurm-KeepsOldSlurm s outside file =
      let (config, result) = fetch_file libraries.parse_http_time s.fetch_config outside file in
      after config result
    where
      after :
          (config : FetchConfig) (result : Fetched)
          → let (t, changed, _) =
              update_slurm_after libraries (record s { fetch_config = config }) result in
            KeepsOldSlurm s t changed
      after config (failed e code lastrefresh) = (refl, refl, refl, inr refl)
      after config (fetched text code lastrefresh) =
          let s1 = record s { fetch_config = config } in
          let (a, b, c, d) = note_fetch-KeepsAll s1 code lastrefresh in
          let (a', b', c', d') = take_slurm-KeepsOldSlurm (note_fetch s1 code lastrefresh) text in
          (
            a' ∙ a,
            b' ∙ b,
            c' ∙ c,
            elim d' [ inl changed ↦ inl changed | inr same ↦ inr (same ∙ d) ],
          )

  pub update_slurm_if_named-KeepsOldSlurm :
      (s : State) (outside : Outside) (slurm_file : Text)
      → let (t, changed) = update_slurm_if_named libraries s outside slurm_file in
        KeepsOldSlurm s t changed
  unfolding update_slurm_if_named
  update_slurm_if_named-KeepsOldSlurm s outside slurm_file =
      elim (Bool-cases (length slurm_file == 0)) [
        | inl e ↦ rw (e, update_slurm_if_named) (refl, refl, refl, inr refl)
        | inr e ↦ rw (e, update_slurm_if_named) (update_slurm-KeepsOldSlurm s outside slurm_file)
      ]
