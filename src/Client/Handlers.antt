-- ===== src/Client/Handlers.antt =====
-- The server as the handler of its clients, and the event handler that answers queries
-- (lib/server.go).
use stayrtr.Prelude.{
  ℕ, zero, suc, Bool, false, not, ◌&&◌, List, [], ◌∷◌, ◌++◌, ltb, ◌==◌, if◌then◌else◌,
}
use stayrtr.Prelude.Int.{ℤ, pos, negsuc, sub_ℕ}
use stayrtr.Pdu.{Pdu, serial_query, reset_query}
use stayrtr.Vrp.{Vrp}
use stayrtr.Server.{
  Server, Outcome, done, panic, get_vrps_serial_diff, get_current_serial, get_current_vrps,
  get_session_id,
}
use stayrtr.Client.{
  Client, client_from_conn, set_intervals, set_client_version, send_vrps, send_cache_reset,
  send_internal_error, send_no_data_error, send_wrong_version_error,
}

-- The server with one of its clients, which it knows by the number `id`.
pub record World : Type 0 where
  pub server : Server
  pub client : Client
  pub id : ℕ

abbrev pub on_client : World → (Client → Client) → World
on_client w f = record w { client = f w.client }

-- a + 1
unfoldable pub increment : ℤ → ℤ
increment (pos n) = pos (suc n)
increment (negsuc zero) = pos 0
increment (negsuc (suc n)) = negsuc n

-- ClientConnected and ClientDisconnected of Server
unfoldable pub client_connected : Server → ℕ → Server
unfolding increment
client_connected s c = record s {
  clients = s.clients ++ (c ∷ []);
  connected = increment s.connected;
}

unfoldable pub others : ℕ → List ℕ → List ℕ
others c [] = []
others c (cc ∷ clients) = let rest = others c clients in if not (cc == c) then cc ∷ rest else rest

unfoldable pub client_disconnected : Server → ℕ → Server
client_disconnected s c = record s { clients = others c s.clients; connected = sub_ℕ s.connected 1 }

-- Disconnect of Client; its handler is the server.
unfoldable pub disconnect : World → World
disconnect w = record w {
  server = client_disconnected w.server w.id;
  client = record (w.client) { connected = false };
}

-- HandlePDU of Server
unfoldable pub handle_pdu : World → World
handle_pdu w =
    let w1 =
      if w.server.enforce_version && not (w.client.version == w.server.base_version)
      then disconnect (on_client w send_wrong_version_error)
      else w in
    if ltb w1.server.base_version w1.client.version
    then on_client w1 (λ c. set_client_version c w1.server.base_version)
    else w1

-- RequestCache of DefaultRTREventHandler, with the server as its VRPManager
unfoldable pub request_cache : Server → Client → Client
request_cache s c =
    let session_id = get_session_id s in
    let (serial, valid) = get_current_serial s session_id in
    let (vrps, exists) = get_current_vrps s in
    if not valid
    then send_no_data_error c
    else if not exists
    then send_internal_error c
    else send_vrps c session_id serial vrps

diff_answer : Client → ℕ → ℕ → Outcome (List Vrp × Bool) → Outcome Client
diff_answer c session_id serial panic = panic
diff_answer c session_id serial (done (vrps, exists)) =
    done (if not exists then send_cache_reset c else send_vrps c session_id serial vrps)

-- RequestNewVersion of DefaultRTREventHandler
unfoldable pub request_new_version : Server → Client → ℕ → ℕ → Outcome Client
unfolding diff_answer
request_new_version s c session_id serial_number =
    let (serial, valid) = get_current_serial s session_id in
    if not valid
    then done (send_no_data_error c)
    else diff_answer c session_id serial (get_vrps_serial_diff s serial_number)

with_client : World → Outcome Client → Outcome World
with_client w panic = panic
with_client w (done c) = done (record w { client = c })

-- passSimpleHandler of Client
unfoldable pub pass_simple_handler : World → Pdu → Outcome World
unfolding with_client
pass_simple_handler w (serial_query p) =
    with_client w (request_new_version w.server w.client p.session_id p.serial_number)
pass_simple_handler w (reset_query p) = done (on_client w (λ c. request_cache w.server c))
pass_simple_handler w _ = done w

-- acceptClientTCP: the client that is made for a connection
unfoldable pub accept_client_tcp : Server → Client
accept_client_tcp s =
    let client = client_from_conn in
    let versioned =
      if s.enforce_version then set_client_version client s.base_version else client in
    set_intervals versioned s.pdu_refresh_interval s.pdu_retry_interval s.pdu_expire_interval
