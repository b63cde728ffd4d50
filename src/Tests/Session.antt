-- ===== src/Tests/Session.antt =====
-- A router that talks to the cache.
use stayrtr.Prelude.{◌≡◌, ◌≤◌, refl, arith, ◌⊎◌, List, true, [], ◌∷◌}
use stayrtr.Pdu.{reset_query, serial_query}
use stayrtr.Server.{done, get_vrps_serial_diff}
use stayrtr.Vrp.{Vrp}
use stayrtr.Client.Handlers.{on_client, disconnect, pass_simple_handler}
use stayrtr.Client.Loop.{receive_pdu}
use stayrtr.Client.Answers.{sent, data_answer, reset_answer, serial_query_answers}
use stayrtr.Client.Versions.{bad_version, bad_version_is_answered}
use stayrtr.Tests.{world, cache, router, reset, query, announced10}
use stayrtr.Tests.Cache.{cache_linked}

serial_query_example :
    ((d : List Vrp) × (get_vrps_serial_diff cache 4 ≡ done (d, true))
      × (pass_simple_handler world (serial_query query)
          ≡ done (on_client world (λ c. sent c (data_answer c 9 5 d)))))
    ⊎ ((1 ≤ 4294967295)
        × (pass_simple_handler world (serial_query query)
            ≡ done (on_client world (λ c. sent c (reset_answer c)))))
unfolding cache_linked
serial_query_example = serial_query_answers world query cache_linked (omega arith) (omega arith)

bad_version_example :
    receive_pdu world (reset_query reset)
    ≡ done (
        on_client
          (disconnect world)
          (λ c. sent c (bad_version router ∷ data_answer router 9 5 (announced10 ∷ []))))
unfolding stayrtr.Client.vrp_pdu stayrtr.Net.to4
bad_version_example =
    bad_version_is_answered world reset refl refl refl refl (omega arith) (omega arith)
      (omega arith)
