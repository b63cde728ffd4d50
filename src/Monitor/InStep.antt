-- ===== src/Monitor/InStep.antt =====
-- The monitor and the server together: from a Serial Query to the keys that both have.
use stayrtr.Prelude.{ℕ, ◌≤◌, ◌<◌, ◌≡◌, arith, ap, ◌∙◌, sym, Bool, true, List, [], Text, length, All}
use stayrtr.Net.{IpNet}
use stayrtr.Vrp.{Vrp}
use stayrtr.Diff.Replay.{View, replay, holds, replay-last_with}
use stayrtr.Diff.Merge.{IsAnnounced}
use stayrtr.Server.{Server, Outcome, done, panic, get_vrps_serial_diff, add_all}
use stayrtr.Server.Linked.{IsLinked}
use stayrtr.Server.Resync.{StaysAway, resync}
use stayrtr.Client.{Client}
use stayrtr.Client.Answers.{data_answer}
use stayrtr.Monitor.{MonitorClient, monitor_all}
use stayrtr.Monitor.Router.{keys_of, HasFamily, monitor_takes_answer}

diff_or : List Vrp → Outcome (List Vrp × Bool) → List Vrp
diff_or l (done (d, _)) = d
diff_or l panic = l

module _ (ipnet_string : IpNet → Text) where
  replay-same :
      (d : List Vrp) (s t : View) (k : Text)
      → s k ≡ t k
      → replay ipnet_string d s k ≡ replay ipnet_string d t k
  replay-same d s t k e =
      ground (arith, e, replay-last_with ipnet_string d s k, replay-last_with ipnet_string d t k)

  -- For each key, over at most `keep_diff` updates of a well linked server that keeps a diff, where the
  -- server's list announces the key if it has it, the monitor has the key exactly if that list has, and
  -- the key is not withdrawn and announced again if the monitor had it: once the monitor has taken in
  -- the answer with the diff that the server has for its serial, it has the key exactly if the
  -- server's new list has. This is of diffs whose addresses have a family.
  pub monitor_resync :
      (s : Server) (updates : List (List Vrp)) (c : MonitorClient) (k : Text)
      → IsLinked s
      → IsAnnounced ipnet_string k s.vrp_current
      → 0 < length s.vrp_list_diff
      → length updates ≤ s.keep_diff
      → StaysAway ipnet_string k
          (holds ipnet_string s.vrp_current k)
          (holds ipnet_string s.vrp_current k)
          updates
      → keys_of c.vrps_rtr k ≡ holds ipnet_string s.vrp_current k
      → (router : Client) (now session_id serial : ℕ) (d : List Vrp)
      → get_vrps_serial_diff (add_all ipnet_string s updates) s.vrp_current_serial ≡ done (d, true)
      → All HasFamily d
      → keys_of (monitor_all ipnet_string c now (data_answer router session_id serial d)).vrps k
        ≡ holds ipnet_string (add_all ipnet_string s updates).vrp_current k
  unfolding diff_or
  monitor_resync s updates c k linked known some_data few away in_step router now session_id serial
        d answered families =
      let (d', found, right) = resync ipnet_string k s updates linked known some_data few away in
      let same : d' ≡ d = ap (diff_or []) (sym found ∙ answered) in
      (monitor_takes_answer ipnet_string now session_id serial d router c families).1 k
      ∙ replay-same d (keys_of c.vrps_rtr) (holds ipnet_string s.vrp_current) k in_step
      ∙ ap (λ x. replay ipnet_string x (holds ipnet_string s.vrp_current) k) (sym same)
      ∙ right
