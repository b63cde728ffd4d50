-- ===== src/Client/Pool/Accepts.antt =====
-- The connections that a server accepts and loses, in any order (lib/server.go, loopTCP,
-- acceptClientTCP, ClientConnected and ClientDisconnected).
use stayrtr.Prelude.{ℕ, ◌+◌, ◌≤◌, ◌≡◌, arith, ap, ◌∙◌, sym, false, List, [], ◌∷◌, length}
use stayrtr.Prelude.Int.{pos}
use stayrtr.Server.{Server}
use stayrtr.Client.Handlers.{others, client_connected, client_disconnected}
use stayrtr.Client.Connections.{
  IsCounted, occurrences, occurrences-others, occurrences-append, client_connected-IsCounted,
  client_disconnected-IsCounted,
}
use stayrtr.Client.Pool.{is_full}

-- What a server comes to from one without clients. The list has the connections that were accepted and
-- whose goroutine, which counts them, has not run yet: `accepted` is the turn of loopTCP that takes a
-- connection, `joined` is the start of its client, and `left` the end of it.
pub data Reach : Server → List ℕ → Type 0 where
  opened : {s : Server} → s.clients ≡ [] → s.connected ≡ pos 0 → Reach s []
  accepted :
      {s : Server} {waiting : List ℕ}
      → (id : ℕ) → Reach s waiting
      → is_full s ≡ false
      → occurrences id s.clients ≡ 0
      → occurrences id waiting ≡ 0
      → Reach s (id ∷ waiting)
  joined :
      {s : Server} {waiting : List ℕ}
      → (id : ℕ) → Reach s waiting
      → occurrences id waiting ≡ 1
      → Reach (client_connected s id) (others id waiting)
  left :
      {s : Server} {waiting : List ℕ}
      → (id : ℕ) → Reach s waiting
      → occurrences id s.clients ≡ 1
      → Reach (client_disconnected s id) waiting

-- The count is the number of the clients, and no connection is a client twice, or waits twice, or is
-- a client and waits.
abbrev pub IsApart : Server → List ℕ → Type 0
IsApart s waiting = IsCounted s × ((c : ℕ) → occurrences c s.clients + occurrences c waiting ≤ 1)

pub opened-IsApart : (s : Server) → s.clients ≡ [] → s.connected ≡ pos 0 → IsApart s []
opened-IsApart s e z = (
  record {
    count = z ∙ sym (ap (λ l. pos (length l)) e);
    once = λ b. ground (arith, ap (occurrences b) e);
  },
  λ c. ground (arith, ap (occurrences c) e),
)

module _ (s : Server) (waiting : List ℕ) (id : ℕ) where
  pub accepted-IsApart :
      IsApart s waiting
      → occurrences id s.clients ≡ 0
      → occurrences id waiting ≡ 0
      → IsApart s (id ∷ waiting)
  accepted-IsApart (counted, apart) new fresh = (counted, λ c. ground (arith, apart c, new, fresh))

  pub joined-IsApart :
      IsApart s waiting
      → occurrences id waiting ≡ 1
      → IsApart (client_connected s id) (others id waiting)
  unfolding client_connected
  joined-IsApart (counted, apart) known = (
    client_connected-IsCounted s id counted (omega (arith, apart id, known)),
    λ c.
        ground (
          arith,
          apart c,
          occurrences-append c s.clients (id ∷ []),
          occurrences-others id c waiting,
        ),
  )

  pub left-IsApart :
      IsApart s waiting → occurrences id s.clients ≡ 1 → IsApart (client_disconnected s id) waiting
  unfolding client_disconnected
  left-IsApart (counted, apart) known = (
    (client_disconnected-IsCounted s id counted known).0,
    λ c. ground (arith, apart c, occurrences-others id c s.clients),
  )

-- In every state that a server comes to, whatever the order of its connections, the count is the number
-- of its clients, none of which is there twice or still waits for its start.
Reach-IsCounted :
    {s : Server} {waiting : List ℕ}
    → Reach s waiting
    → IsCounted s × ((c : ℕ) → occurrences c s.clients + occurrences c waiting ≤ 1)
Reach-IsCounted {s} (opened e z) = opened-IsApart s e z
Reach-IsCounted (accepted {s = s} {waiting = waiting} id r full new fresh) =
    accepted-IsApart s waiting id (Reach-IsCounted r) new fresh
Reach-IsCounted (joined {s = s} {waiting = waiting} id r known) =
    joined-IsApart s waiting id (Reach-IsCounted r) known
Reach-IsCounted (left {s = s} {waiting = waiting} id r known) =
    left-IsApart s waiting id (Reach-IsCounted r) known
