-- ===== src/Feed/Quiet.antt =====
-- The metrics of the fetches (cmd/stayrtr/stayrtr.go: updateFile and updateSlurm).
use stayrtr.Prelude.{ℕ, ◌≡◌, refl, Bool, false, Text, Bool-cases, Option-cases, inl, inr}
use stayrtr.Prelude.Int.{ℤ, negsuc}
use stayrtr.Fetch.{Outside, Fetched, fetched, failed, fetch_file}
use stayrtr.Fetch.Bodies.{fetched-code}
use stayrtr.Feed.State.{State}
use stayrtr.Feed.Refresh.{
  Libraries, note_fetch, take_file, update_after, update_file, take_slurm, update_slurm_after,
  update_slurm, is_identical,
}

-- The metrics are as they were.
abbrev pub SameMetrics : State → State → Type 0
SameMetrics s t =
    (t.last_refresh ≡ s.last_refresh) × (t.refresh_status_code ≡ s.refresh_status_code)

module _ (libraries : Libraries) where
  take_file-SameMetrics :
      (s : State) (file text : Text) → SameMetrics s (take_file libraries s file text).0
  unfolding take_file
  take_file-SameMetrics s file text =
      elim (Bool-cases (is_identical libraries s (libraries.new_sha256 text))) [
        | inl e ↦ rw (e, take_file) (refl, refl)
        | inr e ↦ elim (Option-cases (libraries.decode_json text)) [
          | inl p ↦ rw (e, p, take_file) (refl, refl)
          | inr (v, p) ↦ rw (e, p, take_file) (refl, refl)
        ]
      ]

  take_slurm-SameMetrics : (s : State) (text : Text) → SameMetrics s (take_slurm libraries s text).0
  unfolding take_slurm
  take_slurm-SameMetrics s text = elim (Option-cases (libraries.decode_json_slurm text)) [
    | inl p ↦ rw (p, take_slurm) (refl, refl)
    | inr (v, p) ↦ rw (p, take_slurm) (refl, refl)
  ]

  -- Whatever a fetch of the JSON file or of the local exceptions meets, the metrics LastRefresh and
  -- RefreshStatusCode stay as they are.
  fetches-SameMetrics :
      (s : State) (outside : Outside) (now : ℕ) (file : Text)
      → SameMetrics s (update_file libraries s outside now file).0
        × SameMetrics s (update_slurm libraries s outside file).0
  unfolding update_file update_slurm update_after update_slurm_after note_fetch
  fetches-SameMetrics s outside now file =
      go (fetch_file libraries.parse_http_time s.fetch_config outside file).1
        (fetched-code libraries.parse_http_time s.fetch_config outside file)
    where
      go :
          (result : Fetched)
          → ((text : Text) (code : ℤ) (refresh : Bool)
              → result ≡ fetched text code refresh
              → (code ≡ negsuc 0) × (refresh ≡ false))
          → let config = (fetch_file libraries.parse_http_time s.fetch_config outside file).0 in
            SameMetrics s
              (update_after libraries
                (record s { lastts = now; fetch_config = config })
                file
                result).0
            × SameMetrics s
                (update_slurm_after libraries (record s { fetch_config = config }) result).0
      go (failed e code refresh) plain = ((refl, refl), (refl, refl))
      go (fetched text code refresh) plain =
          let (minus_one, old) = plain text code refresh refl in
          rw (minus_one, old) (take_file-SameMetrics _ file text, take_slurm-SameMetrics _ text)
