-- ===== src/Startup/Life.antt =====
-- The daemon as a whole: its turns, and the connections of its routers in any order
-- (cmd/stayrtr/stayrtr.go, run and routineUpdate; lib/server.go, loopTCP).
use stayrtr.Prelude.{
  ℕ, ◌≡◌, refl, arith, ap, ◌∙◌, false, Option, List, [], ◌∷◌, Text, ◌&&◌, ltb, not, length, ◌==◌,
}
use stayrtr.Prelude.Int.{ℤ, pos}
use stayrtr.Net.{IpNet}
use stayrtr.Server.{Server, new_server, set_serial}
use stayrtr.Server.Query.{IsCache, new_server-IsCache}
use stayrtr.Client.Handlers.{others, client_connected, client_disconnected}
use stayrtr.Client.Connections.{occurrences}
use stayrtr.Client.Pool.{is_full, excess}
use stayrtr.Client.Pool.Accepts.{
  IsApart, opened-IsApart, accepted-IsApart, joined-IsApart, left-IsApart,
}
use stayrtr.Feed.SameClients.{routine_turn-SameClients, run_start-SameClients}
use stayrtr.Startup.Kept.{
  with_clients, with_clients-IsCache, same-IsApart, connected-IsCache, disconnected-IsCache,
}
use stayrtr.Feed.State.{State}
use stayrtr.Feed.Refresh.{Libraries}
use stayrtr.Feed.Turns.{Moment, initial_state, run_start, routine_turn}
use stayrtr.Feed.Latest.{
  Latest, latest_of, after_start, after_turn, run_start-latest, routine_turn-latest,
}
use stayrtr.Feed.Fed.{IsFed, run_start-IsFed, routine_turn-IsFed}
use stayrtr.Startup.{Flags, server_configuration, has_no_bind, run_state, refreshed_slurm}

module _ (ipnet_string : IpNet → Text) (parse_cidr : Text → Option IpNet) (uint32_of_float : ℕ → ℕ)
    (number_int64 : Text → ℤ) (parse_time : Text → Option ℕ) (libraries : Libraries)
    (flags : Flags) where
  abbrev turn : State → Moment → State
  turn t m =
      routine_turn ipnet_string parse_cidr uint32_of_float number_int64 parse_time libraries t m
        flags.cache_bin (refreshed_slurm flags)

  -- What the daemon comes to, with the connections over TCP and TLS that were accepted and are not yet
  -- counted: the listeners are opened after the start of run. Where there is a listener for SSH, its
  -- connections change the list and the count of the clients at any time, here to whatever they may be:
  -- what they do to them is in Client/Ssh. A turn is one step, as no connection changes what it writes;
  -- in the code, the exported list is set behind the update of the server and the notifications.
  pub data Life : State → List ℕ → Type 0 where
    launched :
        (random : ℕ) (m : Moment)
        → has_no_bind flags ≡ false
        → Life
            (run_start ipnet_string parse_cidr uint32_of_float number_int64 parse_time libraries
              (run_state flags random)
              m
              flags.cache_bin
              flags.slurm)
            []
    turned : {t : State} {waiting : List ℕ} (m : Moment) → Life t waiting → Life (turn t m) waiting
    accepted :
        {t : State} {waiting : List ℕ}
        → (id : ℕ) → Life t waiting
        → is_full t.server ≡ false
        → occurrences id t.server.clients ≡ 0
        → occurrences id waiting ≡ 0
        → Life t (id ∷ waiting)
    joined :
        {t : State} {waiting : List ℕ}
        → (id : ℕ) → Life t waiting
        → occurrences id waiting ≡ 1
        → Life (record t { server = client_connected t.server id }) (others id waiting)
    left :
        {t : State} {waiting : List ℕ}
        → (id : ℕ) → Life t waiting
        → occurrences id t.server.clients ≡ 1
        → Life (record t { server = client_disconnected t.server id }) waiting
    over_ssh :
        {t : State} {waiting : List ℕ}
        → (clients : List ℕ) (connected : ℤ) → Life t waiting
        → (length flags.bind_ssh == 0) ≡ false
        → Life (record t { server = with_clients t.server clients connected }) waiting

not-full : (s : Server) → s.maxconn ≡ pos 0 → is_full s ≡ false
unfolding is_full excess
not-full s e = ap (λ m. ltb 0 (excess m (pos 0)) && not (ltb 0 (excess m s.connected))) e

module _ (ipnet_string : IpNet → Text) (parse_cidr : Text → Option IpNet) (uint32_of_float : ℕ → ℕ)
    (number_int64 : Text → ℤ) (parse_time : Text → Option ℕ) (libraries : Libraries)
    (flags : Flags) where
  abbrev Fed : State → Type 0
  Fed t = IsFed ipnet_string parse_cidr uint32_of_float number_int64 parse_time libraries t

  -- what holds of the daemon's state and the connections that wait
  record IsRunning (t : State) (waiting : List ℕ) : Type 0 where
    fed : flags.time_check ≡ false → Fed t
    apart : flags.bind_ssh ≡ [] → IsApart t.server waiting
    unlimited : t.server.maxconn ≡ pos 0

  start-IsRunning :
      (random : ℕ) (m : Moment)
      → IsRunning
          (run_start ipnet_string parse_cidr uint32_of_float number_int64 parse_time libraries
            (run_state flags random)
            m
            flags.cache_bin
            flags.slurm)
          []
  unfolding run_state server_configuration new_server initial_state set_serial
  start-IsRunning random m =
      let s = run_state flags random in
      let cache : IsCache ipnet_string s.server =
        new_server-IsCache ipnet_string (server_configuration flags) random 0 (omega arith)
          (omega arith) (omega arith) in
      let same =
        run_start-SameClients ipnet_string parse_cidr uint32_of_float number_int64 parse_time
          libraries s m flags.cache_bin flags.slurm in
      record {
        fed = λ unchecked.
            run_start-IsFed ipnet_string parse_cidr uint32_of_float number_int64 parse_time
              libraries s m flags.cache_bin flags.slurm cache unchecked;
        apart = λ no_ssh. same-IsApart s.server _ [] same (opened-IsApart s.server refl refl);
        unlimited = same.2;
      }

  turn-IsRunning :
      (t : State) (waiting : List ℕ) (m : Moment)
      → IsRunning t waiting
      → IsRunning
          (routine_turn ipnet_string parse_cidr uint32_of_float number_int64 parse_time libraries t
            m flags.cache_bin
            (refreshed_slurm flags))
          waiting
  turn-IsRunning t waiting m h =
      let same =
        routine_turn-SameClients ipnet_string parse_cidr uint32_of_float number_int64 parse_time
          libraries t m flags.cache_bin (refreshed_slurm flags) in
      record {
        fed = λ unchecked.
            routine_turn-IsFed ipnet_string parse_cidr uint32_of_float number_int64 parse_time
              libraries t m flags.cache_bin (refreshed_slurm flags) (h.fed unchecked);
        apart = λ no_ssh. same-IsApart t.server _ waiting same (h.apart no_ssh);
        unlimited = same.2 ∙ h.unlimited;
      }

  joined-Fed :
      (t : State) (id : ℕ) → Fed t → Fed (record t { server = client_connected t.server id })
  unfolding client_connected
  joined-Fed t id f = record {
    cache = connected-IsCache ipnet_string t.server id f.cache;
    unchecked = f.unchecked;
    fed = f.fed;
  }

  left-Fed :
      (t : State) (id : ℕ) → Fed t → Fed (record t { server = client_disconnected t.server id })
  unfolding client_disconnected
  left-Fed t id f = record {
    cache = disconnected-IsCache ipnet_string t.server id f.cache;
    unchecked = f.unchecked;
    fed = f.fed;
  }

  over_ssh-Fed :
      (t : State) (clients : List ℕ) (connected : ℤ)
      → Fed t
      → Fed (record t { server = with_clients t.server clients connected })
  over_ssh-Fed t clients connected f = record {
    cache = with_clients-IsCache ipnet_string t.server clients connected f.cache;
    unchecked = f.unchecked;
    fed = f.fed;
  }

  Life-IsRunning :
      {t : State} {waiting : List ℕ}
      → Life ipnet_string parse_cidr uint32_of_float number_int64 parse_time libraries flags t
          waiting
      → IsRunning t waiting
  unfolding client_connected client_disconnected
  Life-IsRunning (launched random m bound) = start-IsRunning random m
  Life-IsRunning (turned {t = t} {waiting = waiting} m l) =
      turn-IsRunning t waiting m (Life-IsRunning l)
  Life-IsRunning (accepted {t = t} {waiting = waiting} id l full new fresh) =
      let h = Life-IsRunning l in
      record {
        fed = h.fed;
        apart = λ no_ssh. accepted-IsApart t.server waiting id (h.apart no_ssh) new fresh;
        unlimited = h.unlimited;
      }
  Life-IsRunning (joined {t = t} {waiting = waiting} id l known) =
      let h = Life-IsRunning l in
      record {
        fed = λ unchecked. joined-Fed t id (h.fed unchecked);
        apart = λ no_ssh. joined-IsApart t.server waiting id (h.apart no_ssh) known;
        unlimited = h.unlimited;
      }
  Life-IsRunning (left {t = t} {waiting = waiting} id l known) =
      let h = Life-IsRunning l in
      record {
        fed = λ unchecked. left-Fed t id (h.fed unchecked);
        apart = λ no_ssh. left-IsApart t.server waiting id (h.apart no_ssh) known;
        unlimited = h.unlimited;
      }
  Life-IsRunning (over_ssh {t = t} clients connected l listens) =
      let h = Life-IsRunning l in
      record {
        fed = λ unchecked. over_ssh-Fed t clients connected (h.fed unchecked);
        apart = λ no_ssh. absurd (ground (arith, listens, ap (λ (x : Text). length x == 0) no_ssh));
        unlimited = h.unlimited;
      }

  -- In every state that a daemon without a listener for SSH comes to, whatever its fetches return and
  -- in whichever order its turns and the connections of its routers come: no connection is refused, whatever the flag for the
  -- number of connections says; the count of the clients is right, no client is there twice, and no
  -- client still waits for its start.
  pub Life-IsApart :
      {t : State} {waiting : List ℕ}
      → flags.bind_ssh ≡ []
      → Life ipnet_string parse_cidr uint32_of_float number_int64 parse_time libraries flags t
          waiting
      → (is_full t.server ≡ false) × IsApart t.server waiting
  Life-IsApart {t} without_ssh l =
      let h = Life-IsRunning l in (not-full t.server h.unlimited, h.apart without_ssh)

  abbrev Lives : State → List ℕ → Type 0
  Lives t waiting =
      Life ipnet_string parse_cidr uint32_of_float number_int64 parse_time libraries flags t waiting

  -- What the daemon decoded last, of what its fetches returned since its start.
  abbrev pub lately : {t : State} {waiting : List ℕ} → Lives t waiting → Latest
  lately (launched random m bound) =
      after_start libraries (latest_of (run_state flags random)) m flags.cache_bin flags.slurm
  lately (turned m l) = after_turn libraries (lately l) m flags.cache_bin (refreshed_slurm flags)
  lately (accepted id l full new fresh) = lately l
  lately (joined id l known) = lately l
  lately (left id l known) = lately l
  lately (over_ssh clients connected l listens) = lately l

  Life-latest : {t : State} {waiting : List ℕ} (l : Lives t waiting) → latest_of t ≡ lately l
  Life-latest (launched random m bound) =
      run_start-latest ipnet_string parse_cidr uint32_of_float number_int64 parse_time libraries
        (run_state flags random) m flags.cache_bin flags.slurm
  Life-latest (turned {t = t} m l) =
      routine_turn-latest ipnet_string parse_cidr uint32_of_float number_int64 parse_time libraries
        t m flags.cache_bin (refreshed_slurm flags)
      ∙ ap (λ x. after_turn libraries x m flags.cache_bin (refreshed_slurm flags)) (Life-latest l)
  Life-latest (accepted id l full new fresh) = Life-latest l
  Life-latest (joined id l known) = Life-latest l
  Life-latest (left id l known) = Life-latest l
  Life-latest (over_ssh clients connected l listens) = Life-latest l

  -- In every state that the daemon comes to with the check of the file's age turned off, whatever its
  -- fetches return and in whichever order its turns and the connections of its routers come: the
  -- state's file and exceptions are the last ones that were decoded, and, where that file has a list at
  -- all, the server has exactly the keys of the file's valid VRPs under these exceptions: those that the
  -- filters keep, and the asserted ones.
  pub Life-IsFed :
      {t : State} {waiting : List ℕ}
      → flags.time_check ≡ false
      → (l : Lives t waiting)
      → IsFed ipnet_string parse_cidr uint32_of_float number_int64 parse_time libraries t
        × (latest_of t ≡ lately l)
  Life-IsFed unchecked l = ((Life-IsRunning l).fed unchecked, Life-latest l)
