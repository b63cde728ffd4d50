-- ===== src/Tests/Clients.antt =====
-- The clients of the cache as a whole, and the keys of two VRPs.
use stayrtr.Prelude.{◌≤◌, ◌≡◌, refl, arith, [], ◌∷◌, length, nat_eq}
use stayrtr.Prelude.Int.{pos}
use stayrtr.Vrp.Key.{IsKeyed}
use stayrtr.Client.Connections.{IsCounted}
use stayrtr.Client.Pool.{reads_fail, Pool, set_max_connections}
use stayrtr.Client.Pool.Limit.{set_max_connections-reads_fail}
use stayrtr.Tests.{raw_text, cache, router, vrp10}

abbrev pool : Pool
pool = record { server = cache; store = (3, router) ∷ (4, router) ∷ [] }

counted : IsCounted cache
counted = record { count = refl; once = λ c. ground arith }

set_max_connections_example :
    let p' = set_max_connections pool (pos 1) in
    let later = reads_fail (3 ∷ []) p' in
    (p'.server.clients ≡ 4 ∷ [])
    × (length p'.server.clients ≤ 1)
    × (later.server.clients ≡ 4 ∷ [])
    × (later.server.connected ≡ pos 0)
set_max_connections_example = set_max_connections-reads_fail pool 1 counted

keyed : IsKeyed raw_text vrp10
keyed = (
  (
    (λ e. omega (arith, e)),
    (
      (λ e. omega (arith, e)),
      (
        (λ e. omega (arith, e)),
        (
          (λ e. omega (arith, e)),
          (
            (λ e. omega (arith, e)),
            ((λ e. omega (arith, e)), ((λ e. omega (arith, e)), ((λ e. omega (arith, e)), tt))),
          ),
        ),
      ),
    ),
  ),
  omega arith,
  omega arith,
)
