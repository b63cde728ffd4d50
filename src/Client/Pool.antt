-- ===== src/Client/Pool.antt =====
-- The server with all of its clients (lib/server.go): the limit of the connections, and a PDU for
-- all of them.
pub mod Limit
pub mod Accepts
use stayrtr.Prelude.{
  ℕ, zero, suc, ◌+◌, ◌-◌, Bool, true, false, not, ◌&&◌, Option, none, some, List, [], ◌∷◌, ltb, leb,
  GoMap, nat_eq, lookup, insert, if◌then◌else◌,
}
use stayrtr.Prelude.Int.{ℤ, pos, negsuc}
use stayrtr.Pdu.{Pdu}
use stayrtr.Server.{Server}
use stayrtr.Client.{Client, send_pdu}
use stayrtr.Client.Handlers.{client_disconnected}

-- The server, which knows its clients by numbers, and the clients behind the numbers.
pub record Pool : Type 0 where
  pub server : Server
  pub store : GoMap ℕ Client

unfoldable pub at_client : Pool → ℕ → (Client → Client) → Pool
at_client p id f = elim (lookup id p.store) [
  | none ↦ p
  | some c ↦ record p { store = insert id (f c) p.store }
]

-- Disconnect of the client `id`. It closes the connection, and the Read of the client's loop fails then:
-- see `reads_fail`.
unfoldable pub pool_disconnect : Pool → ℕ → Pool
pool_disconnect p id =
    let p1 = at_client p id (λ c. record c { connected = false }) in
    record p1 { server = client_disconnected p1.server id }

-- GetClientList
unfoldable pub get_client_list : Server → List ℕ
get_client_list s = s.clients

-- a - b, or 0 where b is not less than a
unfoldable pub excess : ℤ → ℤ → ℕ
excess (pos a) (pos b) = a - b
excess (pos a) (negsuc b) = a + suc b
excess (negsuc a) (pos b) = 0
excess (negsuc a) (negsuc b) = b - a

-- the loop of SetMaxConnections: `todisconnect` rounds over a list of clients
unfoldable pub disconnect_first : ℕ → List ℕ → Pool → Pool
disconnect_first zero clients p = p
disconnect_first (suc todisconnect) [] p = p
disconnect_first (suc todisconnect) (id ∷ clients) p =
    disconnect_first todisconnect clients (pool_disconnect p id)

-- The loops of these clients, whose Read fails when their connection is closed: each calls Disconnect,
-- whether or not it was called before.
unfoldable pub reads_fail : List ℕ → Pool → Pool
reads_fail [] p = p
reads_fail (id ∷ ids) p = reads_fail ids (pool_disconnect p id)

-- SetMaxConnections; where there is nothing to disconnect, the loop has no round.
unfoldable pub set_max_connections : Pool → ℤ → Pool
set_max_connections p maxconn =
    let p1 = disconnect_first (excess p.server.connected maxconn) (get_client_list p.server) p in
    record p1 { server = record (p1.server) { maxconn = maxconn } }

unfoldable pub get_max_connections : Server → ℤ
get_max_connections s = s.maxconn

-- The test of loopTCP: is a new connection refused?
unfoldable pub is_full : Server → Bool
is_full s = ltb 0 (excess s.maxconn (pos 0)) && not (ltb 0 (excess s.maxconn s.connected))

unfoldable pub set_base_version : Server → ℕ → Server
set_base_version s version = record s { base_version = version }

unfoldable pub set_version_enforced : Server → Bool → Server
set_version_enforced s adapt = record s { enforce_version = adapt }

unfoldable pub set_session_id : Server → ℕ → Server
set_session_id s sess_id = record s { sess_id = sess_id }

unfoldable pub for_each : List ℕ → (Client → Client) → Pool → Pool
for_each [] f p = p
for_each (id ∷ clients) f p = for_each clients f (at_client p id f)

-- SendPDU of Server
unfoldable pub send_pdu_to_all : Pool → Pdu → Pool
send_pdu_to_all p pdu = for_each p.server.clients (λ c. send_pdu c pdu) p
