-- ===== src/Client/Ssh/Counted.antt =====
-- What a server counts that has connections over TCP and over SSH (lib/server.go, loopTCP,
-- acceptClientTCP, acceptClientSSH, ClientConnected and ClientDisconnected).
use stayrtr.Prelude.{
  ℕ, ◌+◌, ◌≤◌, ◌≡◌, arith, ap, ◌∙◌, sym, subst, false, List, [], ◌∷◌, ◌++◌, length, length-append,
  text_eq, codes, Bool-cases, inl, inr,
}
use stayrtr.Prelude.Int.{pos}
use stayrtr.Server.{Server}
use stayrtr.Client.Handlers.{increment, others, client_connected, client_disconnected}
use stayrtr.Client.Connections.{occurrences, occurrences-others, occurrences-append, length-others}
use stayrtr.Client.Pool.{is_full}
use stayrtr.Client.Ssh.{
  SshConn, starting, selecting, reading, serving, closed, SshEvent, scheduled, connection_request,
  connection_requests_end, new_channel, channels_end, channel_request, channel_requests_end,
  client_end, is_rtr_request, count_up, count_down, ssh_step,
}

-- The client that starts is a new one, and the one that ends is in the list.
abbrev pub IsFair : Server → List ℕ → {conn : SshConn} → SshEvent conn → Type 0
IsFair s waiting scheduled = Unit
IsFair s waiting connection_request = Unit
IsFair s waiting connection_requests_end = Unit
IsFair s waiting (new_channel channel_type usable) = Unit
IsFair s waiting channels_end = Unit
IsFair s waiting (channel_request request_type payload replied id) =
    (occurrences id s.clients ≡ 0) × (occurrences id waiting ≡ 0)
IsFair s waiting channel_requests_end = Unit
IsFair s waiting (client_end {id}) = occurrences id s.clients ≡ 1

-- What a server comes to from one without clients, with the connections over TCP that wait for their
-- start, and the connections over SSH that were ever accepted.
pub data Serves : Server → List ℕ → List SshConn → Type 0 where
  opened : {s : Server} → s.clients ≡ [] → s.connected ≡ pos 0 → Serves s [] []
  accepted :
      {s : Server} {waiting : List ℕ} {tunnels : List SshConn}
      → (id : ℕ) → Serves s waiting tunnels
      → is_full s ≡ false
      → occurrences id s.clients ≡ 0
      → occurrences id waiting ≡ 0
      → Serves s (id ∷ waiting) tunnels
  joined :
      {s : Server} {waiting : List ℕ} {tunnels : List SshConn}
      → (id : ℕ) → Serves s waiting tunnels
      → occurrences id waiting ≡ 1
      → Serves (client_connected s id) (others id waiting) tunnels
  left :
      {s : Server} {waiting : List ℕ} {tunnels : List SshConn}
      → (id : ℕ) → Serves s waiting tunnels
      → occurrences id s.clients ≡ 1
      → Serves (client_disconnected s id) waiting tunnels
  accepted_ssh :
      {s : Server} {waiting : List ℕ} {tunnels : List SshConn}
      → Serves s waiting tunnels
      → is_full s ≡ false
      → Serves s waiting (starting ∷ tunnels)
  moved :
      {s : Server} {waiting : List ℕ} {conn : SshConn}
      → (before after : List SshConn) (event : SshEvent conn)
      → Serves s waiting (before ++ (conn ∷ after))
      → IsFair s waiting event
      → Serves (ssh_step s event).0 waiting (before ++ ((ssh_step s event).1 ∷ after))

-- is the goroutine between its first and its last line?
abbrev pub counts : SshConn → ℕ
counts starting = 0
counts selecting = 1
counts reading = 1
counts (serving id) = 1
counts closed = 0

abbrev pub open_tunnels : List SshConn → ℕ
open_tunnels [] = 0
open_tunnels (conn ∷ tunnels) = counts conn + open_tunnels tunnels

open_tunnels-append :
    (xs ys : List SshConn) → open_tunnels (xs ++ ys) ≡ open_tunnels xs + open_tunnels ys
open_tunnels-append [] ys = omega arith
open_tunnels-append (x ∷ xs) ys = omega (arith, open_tunnels-append xs ys)

-- The count is the number of the clients and of the other things that are counted, and no connection
-- is twice among the clients and those that wait.
pub record IsTallied (s : Server) (waiting : List ℕ) (extra : ℕ) : Type 0 where
  pub count : s.connected ≡ pos (length s.clients + extra)
  pub apart : (c : ℕ) → occurrences c s.clients + occurrences c waiting ≤ 1

module _ (s : Server) (waiting : List ℕ) (extra id : ℕ) (h : IsTallied s waiting extra) where
  connected-IsTallied :
      occurrences id s.clients ≡ 0
      → occurrences id waiting ≡ 0
      → IsTallied (client_connected s id) waiting extra
  unfolding client_connected
  connected-IsTallied new fresh = record {
    count = rw h.count (ap pos (omega (arith, length-append s.clients (id ∷ []))));
    apart = λ c. ground (arith, occurrences-append c s.clients (id ∷ []), h.apart c, fresh, new);
  }

  joined-IsTallied :
      occurrences id waiting ≡ 1 → IsTallied (client_connected s id) (others id waiting) extra
  unfolding client_connected
  joined-IsTallied known = record {
    count = rw h.count (ap pos (omega (arith, length-append s.clients (id ∷ []))));
    apart = λ c. ground (
      arith,
      occurrences-append c s.clients (id ∷ []),
      h.apart c,
      occurrences-others id c waiting,
    );
  }

  left-IsTallied : occurrences id s.clients ≡ 1 → IsTallied (client_disconnected s id) waiting extra
  unfolding client_disconnected
  left-IsTallied known = record {
    count = rw h.count (ground (arith, length-others id s.clients));
    apart = λ c. ground (arith, h.apart c, occurrences-others id c s.clients);
  }

module _ (s : Server) (waiting : List ℕ) (extra : ℕ) where
  up-IsTallied : IsTallied s waiting (0 + extra) → IsTallied (count_up s) waiting (1 + extra)
  unfolding count_up increment
  up-IsTallied h = record { count = rw h.count (ap pos (omega arith)); apart = h.apart }

  down-IsTallied : IsTallied s waiting (1 + extra) → IsTallied (count_down s) waiting (0 + extra)
  unfolding count_down
  down-IsTallied h = record { count = rw h.count (ground arith); apart = h.apart }

  step-IsTallied :
      {conn : SshConn} (event : SshEvent conn)
      → IsTallied s waiting (counts conn + extra)
      → IsFair s waiting event
      → IsTallied (ssh_step s event).0 waiting (counts (ssh_step s event).1 + extra)
  unfolding ssh_step
  step-IsTallied scheduled h fair = up-IsTallied h
  step-IsTallied connection_request h fair = h
  step-IsTallied connection_requests_end h fair = down-IsTallied h
  step-IsTallied (new_channel channel_type usable) h fair =
      elim (Bool-cases (text_eq channel_type (codes "session"))) [
        | inl e ↦ elim (Bool-cases usable) [
          | inl e2 ↦ rw (ssh_step, e, e2) h
          | inr e2 ↦ rw (ssh_step, e, e2) (down-IsTallied h)
        ]
        | inr e ↦ rw (ssh_step, e) h
      ]
  step-IsTallied channels_end h fair = down-IsTallied h
  step-IsTallied (channel_request request_type payload replied id) h fair =
      elim (Bool-cases (is_rtr_request request_type payload)) [
        | inl e ↦ elim (Bool-cases replied) [
          | inl e2 ↦
              rw (ssh_step, e, e2) (connected-IsTallied s waiting (1 + extra) id h fair.0 fair.1)
          | inr e2 ↦ rw (ssh_step, e, e2) (down-IsTallied h)
        ]
        | inr e ↦ rw (ssh_step, e) (down-IsTallied h)
      ]
  step-IsTallied channel_requests_end h fair = h
  step-IsTallied (client_end {id}) h fair = left-IsTallied s waiting (1 + extra) id h fair

move-tunnel :
    (before after : List SshConn) (conn : SshConn)
    → open_tunnels (before ++ (conn ∷ after)) ≡ counts conn + open_tunnels (before ++ after)
move-tunnel before after conn =
    omega (arith, open_tunnels-append before (conn ∷ after), open_tunnels-append before after)

-- In every state that a server comes to, in whichever order its connections over TCP and over SSH are
-- accepted, start, go on and end: the count of the connected clients is the number of its clients and
-- of the connections over SSH that are open, so that a client over SSH is counted twice; and no
-- connection is twice among the clients and those that still wait for their start.
pub Serves-IsTallied :
    {s : Server} {waiting : List ℕ} {tunnels : List SshConn}
    → Serves s waiting tunnels
    → IsTallied s waiting (open_tunnels tunnels)
Serves-IsTallied (opened {s = s} e z) = record {
  count = z ∙ sym (ap (λ l. pos (length l + 0)) e);
  apart = λ c. ground (arith, ap (occurrences c) e);
}
Serves-IsTallied (accepted id r full new fresh) =
    let h = Serves-IsTallied r in
    record { count = h.count; apart = λ c. ground (arith, h.apart c, new, fresh) }
Serves-IsTallied (joined {s = s} {waiting = waiting} {tunnels = tunnels} id r known) =
    joined-IsTallied s waiting (open_tunnels tunnels) id (Serves-IsTallied r) known
Serves-IsTallied (left {s = s} {waiting = waiting} {tunnels = tunnels} id r known) =
    left-IsTallied s waiting (open_tunnels tunnels) id (Serves-IsTallied r) known
Serves-IsTallied (accepted_ssh {s = s} {tunnels = tunnels} r full) =
    let h = Serves-IsTallied r in
    record { count = h.count ∙ ap (λ n. pos (length s.clients + n)) (omega arith); apart = h.apart }
Serves-IsTallied (moved {s = s} {waiting = waiting} {conn = conn} before after event r fair) =
    let extra = open_tunnels (before ++ after) in
    let h : IsTallied s waiting (counts conn + extra) =
      subst (IsTallied s waiting) (move-tunnel before after conn) (Serves-IsTallied r) in
    subst (IsTallied (ssh_step s event).0 waiting)
      (sym (move-tunnel before after (ssh_step s event).1))
      (step-IsTallied s waiting extra event h fair)
