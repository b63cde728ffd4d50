-- ===== src/Client/Ssh.antt =====
-- lib/server.go, acceptClientSSH: the goroutine of a connection over SSH, from event to event.
pub mod Counted
use stayrtr.Prelude.{
  ℕ, Bool, true, false, not, ◌&&◌, List, [], ◌∷◌, ◌++◌, Text, codes, text_eq, if◌then◌else◌,
}
use stayrtr.Prelude.Int.{sub_ℕ}
use stayrtr.Server.{Server}
use stayrtr.Client.Handlers.{increment, client_connected, client_disconnected}

-- Where the goroutine of a connection stands: before its first line, in the select, in the loop over
-- the requests of a channel, in Start of the client `id`, or behind its last line.
pub data SshConn : Type 0 where
  starting : SshConn
  selecting : SshConn
  reading : SshConn
  serving : ℕ → SshConn
  closed : SshConn

-- What can come next, by the place: the goroutine is scheduled; a request for the connection, the
-- end of these requests, a channel of a type that is accepted without an error or not, and the end of
-- the channels; a request in a channel, with its type and its payload, the success of the reply and
-- the number of the client that is made, and the end of these requests; and the end of a client.
pub data SshEvent : SshConn → Type 0 where
  scheduled : SshEvent starting
  connection_request : SshEvent selecting
  connection_requests_end : SshEvent selecting
  new_channel : Text → Bool → SshEvent selecting
  channels_end : SshEvent selecting
  channel_request : Text → Text → Bool → ℕ → SshEvent reading
  channel_requests_end : SshEvent reading
  client_end : {id : ℕ} → SshEvent (serving id)

-- the length of the name and the name of the subsystem
unfoldable pub rtr_payload : Text
rtr_payload = 0 ∷ 0 ∷ 0 ∷ 8 ∷ codes "rpki-rtr"

unfoldable pub is_rtr_request : Text → Text → Bool
is_rtr_request request_type payload =
    text_eq request_type (codes "subsystem") && text_eq payload rtr_payload

-- the first and the last line of the goroutine
unfoldable pub count_up : Server → Server
count_up s = record s { connected = increment s.connected }

unfoldable pub count_down : Server → Server
count_down s = record s { connected = sub_ℕ s.connected 1 }

-- What the goroutine does up to its next wait, or to its end. Start of a client begins with
-- ClientConnected, and ends with ClientDisconnected.
unfoldable pub ssh_step : Server → {conn : SshConn} → SshEvent conn → Server × SshConn
ssh_step s scheduled = (count_up s, selecting)
ssh_step s connection_request = (s, selecting)
ssh_step s connection_requests_end = (count_down s, closed)
ssh_step s (new_channel channel_type accepted) =
    if not (text_eq channel_type (codes "session"))
    then (s, selecting)
    else if accepted
    then (s, reading)
    else (count_down s, closed)
ssh_step s channels_end = (count_down s, closed)
ssh_step s (channel_request request_type payload replied id) =
    if is_rtr_request request_type payload
    then if replied then (client_connected s id, serving id) else (count_down s, closed)
    else (count_down s, closed)
ssh_step s channel_requests_end = (s, selecting)
ssh_step s (client_end {id}) = (client_disconnected s id, reading)
