-- ===== src/Monitor/Files/Shared.antt =====
-- Two clients of the monitor that fetch the same file with one FetchConfig, as main gives it to both
-- (cmd/rtrmon/rtrmon.go).
use stayrtr.Prelude.{
  ℕ, ◌≡◌, ◌≢◌, ◌⊎◌, inl, inr, refl, ap, ◌∙◌, sym, Bool, true, false, Option, some, List, [], ◌∷◌,
  Text, text_keys, lookup, length, All, if◌then◌else◌,
}
use stayrtr.Prelude.Int.{pos}
use stayrtr.Net.{IpNet}
use stayrtr.Prefixfile.{VrpList}
use stayrtr.Fetch.{
  FetchConfig, Request, Response, Outside, failed, http_not_modified, identical_etag, Fetched,
  is_url, request, take_response, fetch_file,
}
use stayrtr.Fetch.Bodies.{identical}
use stayrtr.Fetch.Etags.{etag_after, take_response-etags}
use stayrtr.Monitor.{MonitorClient}
use stayrtr.Monitor.Files.{take_fetched, fetch_turn}

-- Whatever it is asked, the server has the file with this ETag, or says that it has not changed.
abbrev pub IsSteady : Text → Outside → Type 0
IsSteady e outside =
    (q : Request)
    → (r : Response) × (outside.respond q ≡ some r)
      × ((r.status_code ≡ 304) ⊎ ((r.status_code ≡ 200) × (r.etag ≡ e)))

module _ (ipnet_string : IpNet → Text) (parse_cidr : Text → Option IpNet) (uint32_of_float : ℕ → ℕ)
    (parse_http_time : Text → Option ℕ) (decode_json : Text → Option VrpList) (grace_period : ℕ)
    (path : Text) where
  -- a turn of the first client or of the second one
  unfoldable pub shared_turn :
      (MonitorClient × MonitorClient) × FetchConfig
      → Bool
      → Outside
      → ℕ
      → (MonitorClient × MonitorClient) × FetchConfig
  shared_turn ((c1, c2), config) first outside now =
      let turn : MonitorClient → MonitorClient × FetchConfig = λ c.
        (fetch_turn ipnet_string parse_cidr uint32_of_float parse_http_time decode_json grace_period
          (c, config) outside now path).0 in
      if first then (((turn c1).0, c2), (turn c1).1) else ((c1, (turn c2).0), (turn c2).1)

  unfoldable pub shared_turns :
      (MonitorClient × MonitorClient) × FetchConfig
      → List (Bool × Outside × ℕ)
      → (MonitorClient × MonitorClient) × FetchConfig
  shared_turns st [] = st
  shared_turns st ((first, outside, now) ∷ turns) =
      shared_turns (shared_turn st first outside now) turns

  abbrev IsKnown : Text → FetchConfig → Type 0
  IsKnown e config = (config.enable_etags ≡ true) × (lookup path config.etags ≡ some e)

  module _ (url : is_url path ≡ true) (e : Text) (nonempty : length e ≢ 0) where
    refused :
        (config : FetchConfig) (outside : Outside)
        → IsSteady e outside
        → IsKnown e config
        → (error : Fetched) × (fetch_file parse_http_time config outside path ≡ (config, error))
          × ((c : MonitorClient) (now : ℕ)
              → take_fetched ipnet_string parse_cidr uint32_of_float parse_http_time decode_json
                  grace_period c now error
                ≡ (c, false))
    unfolding fetch_file take_response take_fetched
    refused config outside steady (enabled, known) =
        let (r, answered, kind) = steady (request config path) in
        elim kind [
          | inl unchanged ↦ (
            failed (http_not_modified path) (pos 304) true,
            rw (url, fetch_file, answered, take_response, unchanged) refl,
            λ c now. refl,
          )
          | inr (ok, same) ↦ (
            failed (identical_etag path r.etag) (pos 200) true,
            rw (url, fetch_file, answered)
                (identical parse_http_time config path r enabled ok (rw same nonempty)
                  (known ∙ ap some (sym same))),
            λ c now. refl,
          )
        ]

    turn-same :
        (c : MonitorClient) (config : FetchConfig) (outside : Outside) (now : ℕ)
        → IsSteady e outside
        → IsKnown e config
        → (fetch_turn ipnet_string parse_cidr uint32_of_float parse_http_time decode_json
            grace_period
            (c, config)
            outside
            now
            path).0
          ≡ (c, config)
    unfolding fetch_turn
    turn-same c config outside now steady known =
        let (error, result, kept) = refused config outside steady known in
        rw (fetch_turn, result, kept c now) refl

    shared_turn-same :
        (c1 c2 : MonitorClient) (config : FetchConfig) (first : Bool) (outside : Outside) (now : ℕ)
        → IsSteady e outside
        → IsKnown e config
        → shared_turn ((c1, c2), config) first outside now ≡ ((c1, c2), config)
    unfolding shared_turn
    shared_turn-same c1 c2 config true outside now steady known =
        ap (λ t. ((t.0, c2), t.1)) (turn-same c1 config outside now steady known)
    shared_turn-same c1 c2 config false outside now steady known =
        ap (λ t. ((c1, t.0), t.1)) (turn-same c2 config outside now steady known)

    shared_turns-same :
        (turns : List (Bool × Outside × ℕ)) (c1 c2 : MonitorClient) (config : FetchConfig)
        → All (λ t. IsSteady e t.1) turns
        → IsKnown e config
        → shared_turns ((c1, c2), config) turns ≡ ((c1, c2), config)
    unfolding shared_turns
    shared_turns-same [] c1 c2 config steady known = refl
    shared_turns-same ((first, outside, now) ∷ turns) c1 c2 config (s, steady) known =
        ap (λ st. shared_turns st turns) (shared_turn-same c1 c2 config first outside now s known)
        ∙ shared_turns-same turns c1 c2 config steady known

    first-IsKnown :
        (c : MonitorClient) (config : FetchConfig) (outside : Outside) (now : ℕ) (r : Response)
        → config.enable_etags ≡ true
        → outside.respond (request config path) ≡ some r
        → r.status_code ≡ 200
        → r.etag ≡ e
        → IsKnown e
            (fetch_turn ipnet_string parse_cidr uint32_of_float parse_http_time decode_json
              grace_period
              (c, config)
              outside
              now
              path).0.1
    unfolding fetch_turn fetch_file
    first-IsKnown c config outside now r enabled answered ok same =
        let (etags, switch) = take_response-etags parse_http_time config path r in
        let stored : etag_after r (lookup path config.etags) ≡ some e = rw (ok, same) refl in
        rw (url, fetch_file, answered) (switch ∙ enabled, etags ∙ stored)

    -- Where ETags are enabled and one URL is fetched by both clients, and the server has the file with
    -- an ETag that is not empty, and from then on answers each request with that ETag or with the
    -- status 304: once the first client has fetched it, no number of turns of either client changes
    -- anything, and the second client never gets what it did not have.
    pub second_client_is_starved :
        (c1 c2 : MonitorClient) (config : FetchConfig) (outside : Outside) (now : ℕ) (r : Response)
        → (turns : List (Bool × Outside × ℕ)) → config.enable_etags ≡ true
        → outside.respond (request config path) ≡ some r
        → r.status_code ≡ 200
        → r.etag ≡ e
        → All (λ t. IsSteady e t.1) turns
        → let st = shared_turns ((c1, c2), config) ((true, outside, now) ∷ turns) in
          (st ≡ shared_turn ((c1, c2), config) true outside now) × (st.0.1 ≡ c2)
    unfolding shared_turns shared_turn
    second_client_is_starved c1 c2 config outside now r turns enabled answered ok same steady =
        let turn =
          (fetch_turn ipnet_string parse_cidr uint32_of_float parse_http_time decode_json
            grace_period (c1, config) outside now path).0 in
        let stays =
          shared_turns-same turns turn.0 c2 turn.1 steady
            (first-IsKnown c1 config outside now r enabled answered ok same) in
        (stays, ap (λ st. st.0.1) stays)
