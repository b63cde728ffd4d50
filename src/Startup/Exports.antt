-- ===== src/Startup/Exports.antt =====
-- What the daemon exports over HTTP and what it serves to routers, from its start on
-- (cmd/stayrtr/stayrtr.go).
use stayrtr.Prelude.{ℕ, refl, arith, Option, List, Text}
use stayrtr.Prelude.Int.{ℤ}
use stayrtr.Net.{IpNet}
use stayrtr.Server.{new_server, set_serial}
use stayrtr.Server.Query.{new_server-IsCache}
use stayrtr.Client.Handlers.{client_connected, client_disconnected}
use stayrtr.Feed.{process_data}
use stayrtr.Feed.State.{State}
use stayrtr.Feed.Refresh.{Libraries}
use stayrtr.Feed.Turns.{initial_state}
use stayrtr.Feed.Exported.{IsExported, exporter, run_start-IsExported, routine_turn-IsExported}
use stayrtr.Startup.{Flags, server_configuration, run_state, refreshed_slurm}
use stayrtr.Startup.Kept.{
  with_clients, with_clients-IsCache, connected-IsCache, disconnected-IsCache,
}
use stayrtr.Startup.Life.{Life, launched, turned, accepted, joined, left, over_ssh}

module _ (ipnet_string : IpNet → Text) (parse_cidr : Text → Option IpNet)
    (uint32_of_float : ℕ → ℕ) where
  abbrev Exported : State → Type 0
  Exported t = IsExported ipnet_string parse_cidr uint32_of_float t

  run_state-Exported : (flags : Flags) (random : ℕ) → Exported (run_state flags random)
  unfolding run_state server_configuration new_server initial_state set_serial exporter process_data
      stayrtr.Feed.process_loop
  run_state-Exported flags random = record {
    cache =
        new_server-IsCache ipnet_string (server_configuration flags) random 0 (omega arith)
          (omega arith) (omega arith);
    shown = λ k. refl;
    counted = refl;
  }

  joined-Exported :
      (t : State) (id : ℕ)
      → Exported t
      → Exported (record t { server = client_connected t.server id })
  unfolding client_connected exporter
  joined-Exported t id h = record {
    cache = connected-IsCache ipnet_string t.server id h.cache;
    shown = h.shown;
    counted = h.counted;
  }

  left-Exported :
      (t : State) (id : ℕ)
      → Exported t
      → Exported (record t { server = client_disconnected t.server id })
  unfolding client_disconnected exporter
  left-Exported t id h = record {
    cache = disconnected-IsCache ipnet_string t.server id h.cache;
    shown = h.shown;
    counted = h.counted;
  }

  over_ssh-Exported :
      (t : State) (clients : List ℕ) (connected : ℤ)
      → Exported t
      → Exported (record t { server = with_clients t.server clients connected })
  unfolding exporter
  over_ssh-Exported t clients connected h = record {
    cache = with_clients-IsCache ipnet_string t.server clients connected h.cache;
    shown = h.shown;
    counted = h.counted;
  }

  module _ (number_int64 : Text → ℤ) (parse_time : Text → Option ℕ) (libraries : Libraries)
      (flags : Flags) where
    -- In every state that the daemon comes to, with any flags, whatever its fetches return, whether it
    -- finds the file too old or not, and in whichever order its turns and the connections of its
    -- routers come: the list that is exported over HTTP has as many entries as its metadata says, and
    -- its valid VRPs have exactly the keys of the list that the server has for routers.
    pub Life-IsExported :
        {t : State} {waiting : List ℕ}
        → Life ipnet_string parse_cidr uint32_of_float number_int64 parse_time libraries flags t
            waiting
        → IsExported ipnet_string parse_cidr uint32_of_float t
    Life-IsExported (launched random m bound) =
        run_start-IsExported ipnet_string parse_cidr uint32_of_float number_int64 parse_time
          libraries (run_state flags random) m flags.cache_bin flags.slurm
          (run_state-Exported flags random)
    Life-IsExported (turned {t = t} m l) =
        routine_turn-IsExported ipnet_string parse_cidr uint32_of_float number_int64 parse_time
          libraries t m flags.cache_bin (refreshed_slurm flags) (Life-IsExported l)
    Life-IsExported (accepted id l full new fresh) = Life-IsExported l
    Life-IsExported (joined {t = t} id l known) = joined-Exported t id (Life-IsExported l)
    Life-IsExported (left {t = t} id l known) = left-Exported t id (Life-IsExported l)
    Life-IsExported (over_ssh {t = t} clients connected l listens) =
        over_ssh-Exported t clients connected (Life-IsExported l)
