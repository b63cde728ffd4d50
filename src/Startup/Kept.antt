-- ===== src/Startup/Kept.antt =====
-- What the connections and the turns of the daemon leave as it is: the cache does not depend on the
-- clients, nor the clients on the cache (lib/server.go).
use stayrtr.Prelude.{ℕ, arith, ap, ◌∙◌, sym, List, Text, length}
use stayrtr.Prelude.Int.{ℤ, pos}
use stayrtr.Net.{IpNet}
use stayrtr.Server.{Server}
use stayrtr.Server.Query.{IsCache}
use stayrtr.Client.Handlers.{client_connected, client_disconnected}
use stayrtr.Client.Connections.{occurrences}
use stayrtr.Client.Pool.Accepts.{IsApart}
use stayrtr.Feed.SameClients.{SameClients}

pub same-IsApart :
    (s t : Server) (waiting : List ℕ) → SameClients s t → IsApart s waiting → IsApart t waiting
same-IsApart s t waiting (clients, connected, _) (counted, apart) = (
  record {
    count = connected ∙ counted.count ∙ sym (ap (λ l. pos (length l)) clients);
    once = λ c. ground (arith, counted.once c, ap (occurrences c) clients);
  },
  λ c. ground (arith, apart c, ap (occurrences c) clients),
)

-- the server with another list and another count of its clients
abbrev pub with_clients : Server → List ℕ → ℤ → Server
with_clients s clients connected = record s { clients = clients; connected = connected }

module _ (ipnet_string : IpNet → Text) where
  pub with_clients-IsCache :
      (s : Server) (clients : List ℕ) (connected : ℤ)
      → IsCache ipnet_string s
      → IsCache ipnet_string (with_clients s clients connected)
  with_clients-IsCache s clients connected c = record {
    linked = record {
      start = c.linked.start;
      count = c.linked.count;
      start_fits = c.linked.start_fits;
      keep_positive = c.linked.keep_positive;
      keep_bounded = c.linked.keep_bounded;
      automatic = c.linked.automatic;
      list = c.linked.list;
      bounded = c.linked.bounded;
      diffs = c.linked.diffs;
      current = c.linked.current;
      entries = c.linked.entries;
    };
    known = c.known;
  }

  -- the cache does not depend on the clients
  pub connected-IsCache :
      (s : Server) (id : ℕ) → IsCache ipnet_string s → IsCache ipnet_string (client_connected s id)
  unfolding client_connected
  connected-IsCache s id c = with_clients-IsCache s _ _ c

  pub disconnected-IsCache :
      (s : Server) (id : ℕ)
      → IsCache ipnet_string s
      → IsCache ipnet_string (client_disconnected s id)
  unfolding client_disconnected
  disconnected-IsCache s id c = with_clients-IsCache s _ _ c
