-- ===== src/Client/Pool/Limit.antt =====
-- SetMaxConnections (lib/server.go).
use stayrtr.Prelude.{
  ℕ, zero, suc, ◌-◌, ◌≤◌, ◌≡◌, refl, arith, ap, ◌∙◌, sym, subst, false, List, [], ◌∷◌, length, take,
  drop, All, nat_eq, lookup, Option-cases, inl, inr, length-drop,
}
use stayrtr.Prelude.Int.{ℤ, pos, negsuc, sub_ℕ}
use stayrtr.Client.{Client}
use stayrtr.Client.Handlers.{others, client_disconnected}
use stayrtr.Client.Connections.{
  IsCounted, occurrences, others-absent, client_disconnected-IsCounted,
}
use stayrtr.Client.Pool.{
  Pool, at_client, pool_disconnect, get_client_list, excess, disconnect_first, reads_fail,
  set_max_connections,
}

at_client-server : (p : Pool) (id : ℕ) (f : Client → Client) → (at_client p id f).server ≡ p.server
unfolding at_client
at_client-server p id f = elim (Option-cases (lookup id p.store)) [
  | inl e ↦ rw (at_client, e) refl
  | inr (c, e) ↦ rw (at_client, e) refl
]

pool_disconnect-server :
    (p : Pool) (id : ℕ) → (pool_disconnect p id).server ≡ client_disconnected p.server id
unfolding pool_disconnect
pool_disconnect-server p id =
    ap (λ s. client_disconnected s id) (at_client-server p id (λ c. record c { connected = false }))

-- The first client of a list without doubles is taken off, and nothing else.
takes-first :
    (id : ℕ) (clients : List ℕ)
    → ((b : ℕ) → occurrences b (id ∷ clients) ≤ 1)
    → others id (id ∷ clients) ≡ clients
unfolding others
takes-first id clients h = ground (arith, h id, others-absent id clients)

disconnect_first-IsCounted :
    (n : ℕ) (clients : List ℕ) (p : Pool)
    → IsCounted p.server
    → p.server.clients ≡ clients
    → let p' = disconnect_first n clients p in
      IsCounted p'.server × (p'.server.clients ≡ drop n clients)
unfolding disconnect_first client_disconnected
disconnect_first-IsCounted zero clients p h e = (h, e)
disconnect_first-IsCounted (suc n) [] p h e = (h, e)
disconnect_first-IsCounted (suc n) (id ∷ clients) p h e =
    let once : (b : ℕ) → occurrences b (id ∷ clients) ≤ 1 = λ b. rw e at (h.once b) in
    let known : occurrences id p.server.clients ≡ 1 = rw e (ground (arith, once id)) in
    let (counted, _) = client_disconnected-IsCounted p.server id h known in
    let same = pool_disconnect-server p id in
    disconnect_first-IsCounted n clients (pool_disconnect p id) (rw same counted)
      (ap (λ s. s.clients) same ∙ ap (others id) e ∙ takes-first id clients once)

-- SetMaxConnections alone: the clients that are too many are taken off the front of the list, and the
-- count follows, until the loops of these clients end.
set_max_connections-IsCounted :
    (p : Pool) (m : ℕ)
    → IsCounted p.server
    → let p' = set_max_connections p (pos m) in
      IsCounted p'.server
      × (p'.server.clients ≡ drop (length p.server.clients - m) p.server.clients)
      × (length p'.server.clients ≤ m)
unfolding set_max_connections get_client_list excess
set_max_connections-IsCounted p m h =
    let clients = p.server.clients in
    let (counted, left) =
      disconnect_first-IsCounted (excess p.server.connected (pos m)) clients p h refl in
    let many : excess p.server.connected (pos m) ≡ length clients - m =
      ap (λ z. excess z (pos m)) h.count in
    let rest = left ∙ ap (λ n. drop n clients) many in
    (
      record { count = counted.count; once = counted.once },
      rest,
      omega (arith, ap length rest, length-drop (length clients - m) clients),
    )

-- None of the clients is in the list.
abbrev AllAbsent : List ℕ → List ℕ → Type 0
AllAbsent ids clients = All (λ id. occurrences id clients ≡ 0) ids

sub_ℕ-suc : (z : ℤ) (n : ℕ) → sub_ℕ (sub_ℕ z 1) n ≡ sub_ℕ z (suc n)
sub_ℕ-suc (pos zero) n = ground arith
sub_ℕ-suc (pos (suc a)) n = ground arith
sub_ℕ-suc (negsuc a) n = ap negsuc (omega arith)

sub_ℕ-zero : (z : ℤ) → sub_ℕ z 0 ≡ z
sub_ℕ-zero (pos a) = ground arith
sub_ℕ-zero (negsuc a) = ap negsuc (omega arith)

-- The count goes down for each failing Read, also where its client is in the list no more.
reads_fail-absent :
    (ids : List ℕ) (p : Pool)
    → AllAbsent ids p.server.clients
    → let p' = reads_fail ids p in
      (p'.server.clients ≡ p.server.clients)
      × (p'.server.connected ≡ sub_ℕ p.server.connected (length ids))
unfolding reads_fail client_disconnected
reads_fail-absent [] p h = (refl, sym (sub_ℕ-zero p.server.connected))
reads_fail-absent (id ∷ ids) p (h, hs) =
    let once = pool_disconnect-server p id in
    let same : (pool_disconnect p id).server.clients ≡ p.server.clients =
      ap (λ s. s.clients) once ∙ others-absent id p.server.clients h in
    let less : (pool_disconnect p id).server.connected ≡ sub_ℕ p.server.connected 1 =
      ap (λ s. s.connected) once in
    let (clients, count) =
      reads_fail-absent ids (pool_disconnect p id) (subst (AllAbsent ids) (sym same) hs) in
    (
      clients ∙ same,
      count ∙ ap (λ z. sub_ℕ z (length ids)) less ∙ sub_ℕ-suc p.server.connected (length ids),
    )

occurrences-drop :
    (id n : ℕ) (clients : List ℕ) → occurrences id (drop n clients) ≤ occurrences id clients
occurrences-drop id zero clients = omega arith
occurrences-drop id (suc n) [] = omega arith
occurrences-drop id (suc n) (x ∷ clients) = omega (arith, occurrences-drop id n clients)

take-AllAbsent :
    (n : ℕ) (clients : List ℕ)
    → ((b : ℕ) → occurrences b clients ≤ 1)
    → AllAbsent (take n clients) (drop n clients)
take-AllAbsent zero clients h = tt
take-AllAbsent (suc n) [] h = tt
take-AllAbsent (suc n) (id ∷ clients) h = (
  ground (arith, h id, occurrences-drop id n clients),
  take-AllAbsent n clients (λ b. ground (arith, h b)),
)

-- Where the count is the number of the clients and no client is there twice, SetMaxConnections of a
-- limit that is not negative leaves at most that many clients: just as many as are too many are
-- taken off the front of the list, and the others stay in their order. Once the Read of each client
-- that was taken off has failed on its closed connection, the list is still that, but the count is too
-- low by the number of these clients.
pub set_max_connections-reads_fail :
    (p : Pool) (m : ℕ)
    → IsCounted p.server
    → let clients = p.server.clients in
      let many = length clients - m in
      let p' = set_max_connections p (pos m) in
      let later = reads_fail (take many clients) p' in
      (p'.server.clients ≡ drop many clients)
      × (length p'.server.clients ≤ m)
      × (later.server.clients ≡ drop many clients)
      × (later.server.connected
          ≡ sub_ℕ (pos (length (drop many clients))) (length (take many clients)))
set_max_connections-reads_fail p m h =
    let clients = p.server.clients in
    let many = length clients - m in
    let gone = take many clients in
    let p' = set_max_connections p (pos m) in
    let (counted, rest, few) = set_max_connections-IsCounted p m h in
    let absent : AllAbsent gone p'.server.clients =
      subst (AllAbsent gone) (sym rest) (take-AllAbsent many clients h.once) in
    let (same, count) = reads_fail-absent gone p' absent in
    (
      rest,
      few,
      same ∙ rest,
      count ∙ ap (λ z. sub_ℕ z (length gone)) (counted.count ∙ ap (λ l. pos (length l)) rest),
    )
