-- ===== src/Dump/Daemon.antt =====
-- From the files of the daemon to what rtrdump writes (cmd/stayrtr/stayrtr.go, lib/server.go and
-- cmd/rtrdump/rtrdump.go).
use stayrtr.Prelude.{ℕ, ◌<◌, ◌≡◌, ◌∙◌, ap, false, Option, some, List, [], Text, length, map, All}
use stayrtr.Prelude.Int.{ℤ}
use stayrtr.Net.{IpNet}
use stayrtr.Pdu.{PduResetQuery, reset_query}
use stayrtr.Prefixfile.{VrpJson}
use stayrtr.Vrp.{Vrp}
use stayrtr.Diff.Replay.{holds}
use stayrtr.Server.{done}
use stayrtr.Server.Query.{IsCache}
use stayrtr.Client.Answers.{data_answer}
use stayrtr.Client.Handlers.{World, pass_simple_handler}
use stayrtr.Session.{ClientSession}
use stayrtr.Session.Stream.{write_all}
use stayrtr.Session.Listener.{IsKept}
use stayrtr.Monitor.Router.{HasFamily}
use stayrtr.Feed.State.{State}
use stayrtr.Feed.Refresh.{Libraries}
use stayrtr.Feed.Turns.{Reach}
use stayrtr.Feed.Latest.{Latest, decoded_last, Reach-latest}
use stayrtr.Feed.Fed.{valid_vrps, Reach-IsFed}
use stayrtr.Dump.{run_dump}
use stayrtr.Dump.Whole.{dumped, with_data, run_dump-reset_query}

module _ (ipnet_string : IpNet → Text) (parse_cidr : Text → Option IpNet) (uint32_of_float : ℕ → ℕ)
    (number_int64 : Text → ℤ) (parse_time : Text → Option ℕ) (libraries : Libraries) where
  abbrev decoded :
      {s : State} {file slurm_file slurm_refresh : Text} {t : State}
      → Reach ipnet_string parse_cidr uint32_of_float number_int64 parse_time libraries s file
          slurm_file slurm_refresh t
      → Latest
  decoded r =
      decoded_last ipnet_string parse_cidr uint32_of_float number_int64 parse_time libraries r

  -- From a start with a server whose cache is well linked with announced entries, and with the check
  -- of the file's age turned off: after any number of the daemon's turns, whatever its fetches return,
  -- if the last file that was decoded has a list and the cache keeps a serial, then rtrdump, whose
  -- Reset Query the server answers on a connection to which nothing was sent before, writes one entry for
  -- each VRP of a list that has exactly the keys of the file's valid VRPs under the last exceptions
  -- that were decoded: those that the filters keep, and the asserted ones. What the start itself has as
  -- its file and its exceptions counts as decoded. This is of an answer whose PDUs the wire keeps and of VRPs whose addresses have
  -- a family.
  pub run_dump-Reach :
      (s : State) (file slurm_file slurm_refresh : Text) (w : World) (p : PduResetQuery) (t : State)
      → IsCache ipnet_string s.server
      → s.checktime ≡ false
      → (r : Reach ipnet_string parse_cidr uint32_of_float number_int64 parse_time libraries s file
          slurm_file slurm_refresh t)
      → w.server ≡ t.server
      → w.client.transmits ≡ []
      → 0 < length w.server.vrp_list_serial
      → All HasFamily w.server.vrp_current
      → All IsKept
          (data_answer w.client w.server.sess_id w.server.vrp_current_serial w.server.vrp_current)
      → (vrpsjson : List VrpJson) → (decoded r).file.data_of ≡ some vrpsjson
      → (w' : World) × (end : ClientSession) × (vrps : List Vrp) × (pass_simple_handler w
            (reset_query p)
          ≡ done w')
        × (run_dump ipnet_string false 0 0 (write_all w'.client.transmits)
            ≡ some (with_data ipnet_string false 0 0 (map (dumped ipnet_string) vrps), end))
        × ((k : Text)
            → holds ipnet_string vrps k
              ≡ holds ipnet_string
                  (valid_vrps ipnet_string parse_cidr uint32_of_float number_int64 parse_time
                    libraries
                    (decoded r).exceptions
                    vrpsjson)
                  k)
  run_dump-Reach s file slurm_file slurm_refresh w p t cache unchecked reach served fresh some_data
        families kept vrpsjson has_list =
      let (w', end, answered, written) =
        run_dump-reset_query ipnet_string w p fresh some_data families kept in
      let same =
        Reach-latest ipnet_string parse_cidr uint32_of_float number_int64 parse_time libraries
          reach in
      let fed =
        Reach-IsFed ipnet_string parse_cidr uint32_of_float number_int64 parse_time libraries cache
          unchecked reach in
      (
        w',
        end,
        w.server.vrp_current,
        answered,
        written,
        λ k.
            ap (λ server. holds ipnet_string server.vrp_current k) served
            ∙ fed.fed vrpsjson (ap (λ l. l.file.data_of) same ∙ has_list) k
            ∙ ap
                (λ l.
                  holds ipnet_string
                    (valid_vrps ipnet_string parse_cidr uint32_of_float number_int64 parse_time
                      libraries l.exceptions vrpsjson)
                    k)
                same,
      )
