-- ===== src/Client/Connections.antt =====
-- The count of the connected clients (lib/server.go: ClientConnected and ClientDisconnected).
use stayrtr.Prelude.{
  ℕ, ◌+◌, ◌≤◌, ◌≡◌, refl, arith, List, [], ◌∷◌, ◌++◌, length, length-append, ◌==◌, if◌then◌else◌,
  ap,
}
use stayrtr.Prelude.Int.{pos, sub_ℕ}
use stayrtr.Server.{Server}
use stayrtr.Client.Handlers.{client_connected, others, client_disconnected}

-- how often a client is in a list
abbrev pub occurrences : ℕ → List ℕ → ℕ
occurrences c [] = 0
occurrences c (cc ∷ clients) = (if cc == c then 1 else 0) + occurrences c clients

-- The count is the number of the clients, and no client is in the list twice.
pub record IsCounted (s : Server) : Type 0 where
  pub count : s.connected ≡ pos (length s.clients)
  pub once : (c : ℕ) → occurrences c s.clients ≤ 1

pub occurrences-append :
    (c : ℕ) (xs ys : List ℕ) → occurrences c (xs ++ ys) ≡ occurrences c xs + occurrences c ys
occurrences-append c [] ys = omega arith
occurrences-append c (x ∷ xs) ys = omega (arith, occurrences-append c xs ys)

pub length-others : (c : ℕ) (xs : List ℕ) → length (others c xs) + occurrences c xs ≡ length xs
unfolding others
length-others c [] = refl
length-others c (x ∷ xs) = ground (arith, length-others c xs)

pub occurrences-others :
    (c b : ℕ) (xs : List ℕ) → occurrences b (others c xs) ≡ (if b == c then 0 else occurrences b xs)
unfolding others
occurrences-others c b [] = ground arith
occurrences-others c b (x ∷ xs) = ground (arith, occurrences-others c b xs)

pub others-absent : (c : ℕ) (xs : List ℕ) → occurrences c xs ≡ 0 → others c xs ≡ xs
unfolding others
others-absent c [] h = refl
others-absent c (x ∷ xs) h = ground (arith, others-absent c xs)

-- ClientConnected of a client that is not in the list keeps the count equal to the number of clients,
-- and every client in the list once.
pub client_connected-IsCounted :
    (s : Server) (c : ℕ)
    → IsCounted s
    → occurrences c s.clients ≡ 0
    → IsCounted (client_connected s c)
unfolding client_connected
client_connected-IsCounted s c h new = record {
  count = rw h.count (ap pos (omega (arith, length-append s.clients (c ∷ []))));
  once = λ b. ground (arith, occurrences-append b s.clients (c ∷ []), h.once b);
}

-- ClientDisconnected of a client that is in the list keeps the count equal to the number of clients,
-- and takes the client off the list.
pub client_disconnected-IsCounted :
    (s : Server) (c : ℕ)
    → IsCounted s
    → occurrences c s.clients ≡ 1
    → IsCounted (client_disconnected s c) × (occurrences c (client_disconnected s c).clients ≡ 0)
unfolding client_disconnected
client_disconnected-IsCounted s c h known = (
  record {
    count = rw h.count (ground (arith, length-others c s.clients));
    once = λ b. ground (arith, occurrences-others c b s.clients, h.once b);
  },
  ground (arith, occurrences-others c c s.clients),
)

-- ClientDisconnected of a client in the list, called twice, leaves the list as the first call did, and
-- the count one below the number of clients.
client_disconnected_again :
    (s : Server) (c : ℕ)
    → IsCounted s
    → occurrences c s.clients ≡ 1
    → let once = client_disconnected s c in
      let twice = client_disconnected once c in
      (twice.clients ≡ once.clients) × (twice.connected ≡ sub_ℕ (pos (length twice.clients)) 1)
unfolding client_disconnected
client_disconnected_again s c h known =
    let (counted, gone) = client_disconnected-IsCounted s c h known in
    let same = others-absent c (client_disconnected s c).clients gone in
    (same, rw (same, counted.count) refl)
