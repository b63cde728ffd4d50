-- ===== src/Fetch/Bodies.antt =====
-- The data that FetchFile returns (utils/utils.go).
use stayrtr.Prelude.{
  ℕ, ◌≡◌, ◌≢◌, refl, arith, ap, ◌∙◌, Bool, true, false, Option, none, some, Text, text_eq,
  text_eq_iff, length, ◌==◌, text_keys, lookup, Bool-cases, Option-cases, inl, inr,
}
use stayrtr.Prelude.Int.{ℤ, pos, negsuc}
use stayrtr.Fetch.{
  FetchConfig, Response, Outside, unavailable, identical_etag, Fetched, fetched, failed, is_url,
  request, text_at, is_news, take_response, fetch_file,
}
use stayrtr.Fetch.Etags.{etag_after, take_response-etags}

-- With data come the code -1 and no refresh.
abbrev IsPlain : Fetched → Type 0
IsPlain (fetched text code refresh) = (code ≡ negsuc 0) × (refresh ≡ false)
IsPlain (failed e code refresh) = Unit

module _ (parse_time : Text → Option ℕ) where
  take_response-IsPlain :
      (c : FetchConfig) (file : Text) (r : Response) → IsPlain (take_response parse_time c file r).1
  unfolding take_response
  take_response-IsPlain c file r = elim (Bool-cases (r.status_code == 304)) [
    | inl e ↦ rw (e, take_response) tt
    | inr e ↦ elim (Bool-cases (r.status_code == 200)) [
      | inr p ↦ rw (e, p, take_response) tt
      | inl p ↦ elim (Bool-cases (is_news c file r.etag)) [
        | inr q ↦ rw (e, p, q, take_response) tt
        | inl q ↦ elim (Option-cases r.body) [
          | inl b ↦ rw (e, p, q, b, take_response) tt
          | inr (text, b) ↦ rw (e, p, q, b, take_response) (refl, refl)
        ]
      ]
    ]
  ]

  fetch_file-IsPlain :
      (c : FetchConfig) (outside : Outside) (file : Text)
      → IsPlain (fetch_file parse_time c outside file).1
  unfolding fetch_file
  fetch_file-IsPlain c outside file = elim (Bool-cases (is_url file)) [
    | inl e ↦ elim (Option-cases (outside.respond (request c file))) [
      | inl p ↦ rw (e, p, fetch_file) tt
      | inr (r, p) ↦ rw (e, p, fetch_file) (take_response-IsPlain c file r)
    ]
    | inr e ↦ elim (Option-cases (outside.read_file file)) [
      | inl p ↦ rw (e, p, fetch_file) tt
      | inr (text, p) ↦ rw (e, p, fetch_file) (refl, refl)
    ]
  ]

  -- FetchFile never returns data with a status code or as a refresh: with data, the code is -1 and
  -- the flag is false, also after an answer with status 200.
  pub fetched-code :
      (c : FetchConfig) (outside : Outside) (file text : Text) (code : ℤ) (refresh : Bool)
      → (fetch_file parse_time c outside file).1 ≡ fetched text code refresh
      → (code ≡ negsuc 0) × (refresh ≡ false)
  fetched-code c outside file text code refresh e = rw e at (fetch_file-IsPlain c outside file)

  -- an answer with the ETag that is known
  pub identical :
      (c : FetchConfig) (file : Text) (r : Response)
      → c.enable_etags ≡ true
      → r.status_code ≡ 200
      → length r.etag ≢ 0
      → lookup file c.etags ≡ some r.etag
      → take_response parse_time c file r ≡ (c, failed (identical_etag file r.etag) (pos 200) true)
  unfolding take_response is_news text_at
  identical c file r enabled ok nonempty known =
      let e : (length r.etag == 0) ≡ false = ground arith in
      let same : text_eq r.etag r.etag ≡ true = (text_eq_iff r.etag r.etag).1 refl in
      rw (ok, enabled, take_response, is_news, text_at, known, e, same)

  unread :
      (c : FetchConfig) (file : Text) (r : Response)
      → r.status_code ≡ 200
      → r.body ≡ none
      → is_news c file r.etag ≡ true
      → (take_response parse_time c file r).1 ≡ failed unavailable (negsuc 0) false
  unfolding take_response
  unread c file r ok body news = rw (ok, news, body, take_response)

  -- With ETags enabled, an answer with status 200 and an ETag that is not empty, whose body cannot be
  -- read, leaves its ETag behind: a later answer with the same ETag is refused as identical.
  unread_body_is_lost :
      (c : FetchConfig) (file : Text) (r r' : Response)
      → c.enable_etags ≡ true
      → r.status_code ≡ 200
      → r.body ≡ none
      → r'.status_code ≡ 200
      → r'.etag ≡ r.etag
      → length r.etag ≢ 0
      → is_news c file r.etag ≡ true
      → let (c', first) = take_response parse_time c file r in
        (first ≡ failed unavailable (negsuc 0) false)
        × (take_response parse_time c' file r'
            ≡ (c', failed (identical_etag file r.etag) (pos 200) true))
  unread_body_is_lost c file r r' enabled ok body ok' same nonempty news =
      let (etags, switch) = take_response-etags parse_time c file r in
      let known : etag_after r (lookup file c.etags) ≡ some r'.etag = rw (ok, same) refl in
      let empty : length r'.etag ≢ 0 = rw same nonempty in
      (
        unread c file r ok body news,
        identical (take_response parse_time c file r).0 file r' (switch ∙ enabled) ok' empty
              (etags ∙ known)
            ∙ ap
                (λ t. (
                  (take_response parse_time c file r).0,
                  failed (identical_etag file t) (pos 200) true,
                ))
                same,
      )
