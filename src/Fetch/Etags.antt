-- ===== src/Fetch/Etags.antt =====
-- The ETags that FetchFile keeps from answer to answer (utils/utils.go).
use stayrtr.Prelude.{
  ℕ, ◌≡◌, refl, arith, ap, ◌∙◌, true, false, Option, none, some, List, [], ◌∷◌, Text, text_eq_iff,
  ◌==◌, if◌then◌else◌, text_keys, lookup, insert, lookup-insert, lookup-delete, Bool-cases,
  Option-cases, inl, inr,
}
use stayrtr.Fetch.{
  FetchConfig, Response, request, text_at, is_news, note_last_modified, take_response,
}

-- The ETag that an answer leaves: that of a 200, none for an error, and what it was for a 304.
abbrev pub etag_after : Response → Option Text → Option Text
etag_after r known =
    if r.status_code == 304 then known else if r.status_code == 200 then some r.etag else none

module _ (parse_time : Text → Option ℕ) where
  note_last_modified-same :
      (c : FetchConfig) (file header : Text)
      → ((note_last_modified parse_time c file header).etags ≡ c.etags)
        × ((note_last_modified parse_time c file header).enable_etags ≡ c.enable_etags)
  unfolding note_last_modified
  note_last_modified-same c file header = elim (Bool-cases c.enable_last_modified) [
    | inr e ↦ rw (e, note_last_modified) (refl, refl)
    | inl e ↦ elim (Option-cases (parse_time header)) [
      | inl p ↦ rw (e, p, note_last_modified) (refl, refl)
      | inr (t, p) ↦ rw (e, p, note_last_modified) (refl, refl)
    ]
  ]

  -- an answer that is no news has the ETag that is known
  known_etag :
      (c : FetchConfig) (file etag : Text)
      → is_news c file etag ≡ false
      → (lookup file c.etags ≡ some etag) × (c.enable_etags ≡ true)
  unfolding is_news text_at
  known_etag c file etag h = elim (Option-cases (lookup file c.etags)) [
    | inl e ↦ ground (arith, e, text_eq_iff etag [])
    | inr (t, e) ↦ ground (arith, e, text_eq_iff etag t)
  ]

  -- What an answer leaves of the ETag of its file, and that it leaves the switch.
  pub take_response-etags :
      (c : FetchConfig) (file : Text) (r : Response)
      → (lookup file (take_response parse_time c file r).0.etags
          ≡ etag_after r (lookup file c.etags))
        × ((take_response parse_time c file r).0.enable_etags ≡ c.enable_etags)
  unfolding take_response
  take_response-etags c file r = elim (Bool-cases (r.status_code == 304)) [
    | inl e ↦ rw (e, take_response) (refl, refl)
    | inr e ↦ elim (Bool-cases (r.status_code == 200)) [
      | inr p ↦
          rw (e, p, take_response)
            (ground (arith, text_eq_iff file file, lookup-delete file file c.etags), refl)
      | inl p ↦ elim (Bool-cases (is_news c file r.etag)) [
        | inr q ↦ rw (e, p, q, take_response) ((known_etag c file r.etag q).0, refl)
        | inl q ↦
            let noted = record c { etags = insert file r.etag c.etags } in
            let (same, switch) = note_last_modified-same noted file r.last_modified in
            rw (e, p, q, take_response)
              (
                ap (lookup file) same
                    ∙ ground (arith, text_eq_iff file file, lookup-insert file file r.etag c.etags),
                switch,
              )
      ]
    ]
  ]

  abbrev pub take_all : FetchConfig → Text → List Response → FetchConfig
  take_all c file [] = c
  take_all c file (r ∷ answers) = take_all (take_response parse_time c file r).0 file answers

  -- The ETag that a sequence of answers leaves, if `known` was there before.
  abbrev pub last_etag : List Response → Option Text → Option Text
  last_etag [] known = known
  last_etag (r ∷ answers) known = last_etag answers (etag_after r known)

  take_all-etags :
      (answers : List Response) (c : FetchConfig) (file : Text)
      → (lookup file (take_all c file answers).etags ≡ last_etag answers (lookup file c.etags))
        × ((take_all c file answers).enable_etags ≡ c.enable_etags)
  take_all-etags [] c file = (refl, refl)
  take_all-etags (r ∷ answers) c file =
      let (etag, switch) = take_response-etags c file r in
      let (etags, switches) = take_all-etags answers (take_response parse_time c file r).0 file in
      (etags ∙ ap (last_etag answers) etag, switches ∙ switch)

  -- With ETags enabled, the request that follows any sequence of answers for a file names the ETag of
  -- the last answer with status 200, if no answer with another status than 304 came after it; it names
  -- none after such a one; and after answers with status 304 only it names what it named before.
  pub request-take_all :
      (c : FetchConfig) (file : Text) (answers : List Response)
      → c.enable_etags ≡ true
      → (request (take_all c file answers) file).if_none_match
        ≡ last_etag answers (lookup file c.etags)
  unfolding request
  request-take_all c file answers h =
      let (etags, switches) = take_all-etags answers c file in rw (switches ∙ h) etags
