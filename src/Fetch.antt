-- ===== src/Fetch.antt =====
-- utils/utils.go: files are read from disk or over HTTP, where what is known of the last answer makes
-- the next request conditional.
pub mod Etags
pub mod Bodies
use stayrtr.Prelude.{
  ℕ, Bool, true, false, not, ◌&&◌, ◌||◌, Option, none, some, List, [], ◌∷◌, Text, codes, text_eq,
  length, take, ltb, ◌==◌, if◌then◌else◌, GoMap, text_keys, lookup, insert, delete,
}
use stayrtr.Prelude.Int.{ℤ, pos, negsuc}

-- The struct FetchConfig without its lock. A time is a number of seconds.
pub record FetchConfig : Type 0 where
  pub user_agent : Text
  pub mime : Text
  pub etags : GoMap Text Text
  pub last_modified : GoMap Text ℕ
  pub enable_etags : Bool
  pub enable_last_modified : Bool

unfoldable pub new_fetch_config : FetchConfig
new_fetch_config = record {
  user_agent = [];
  mime = codes "application/json";
  etags = [];
  last_modified = [];
  enable_etags = false;
  enable_last_modified = false;
}

-- The request that is sent, with the headers that FetchFile sets. The time is still to be printed.
pub record Request : Type 0 where
  pub url : Text
  pub user_agent : Text
  pub accept : Option Text
  pub if_none_match : Option Text
  pub if_modified_since : Option ℕ

-- What FetchFile reads of a response. `none` is a body that cannot be read to its end.
pub record Response : Type 0 where
  pub status_code : ℕ
  pub etag : Text
  pub last_modified : Text
  pub body : Option Text

-- What is outside at the time of a call: the answer to a request, `none` where the request or its
-- proxy cannot be made or is not answered, and the files, `none` where one cannot be opened or read.
pub record Outside : Type 0 where
  pub respond : Request → Option Response
  pub read_file : Text → Option Text

pub data FetchError : Type 0 where
  unavailable : FetchError
  http_not_modified : Text → FetchError
  http_status : ℕ → FetchError
  identical_etag : Text → Text → FetchError

-- What FetchFile returns: the data or an error, the status code, and whether it was a refresh.
pub data Fetched : Type 0 where
  fetched : Text → ℤ → Bool → Fetched
  failed : FetchError → ℤ → Bool → Fetched

unfoldable pub is_url : Text → Bool
is_url file =
    ltb 8 (length file)
    && (text_eq (take 7 file) (codes "http://") || text_eq (take 8 file) (codes "https://"))

when {ℓ} : {A : Type ℓ} → Bool → Option A → Option A
when true o = o
when false o = none

unfoldable pub request : FetchConfig → Text → Request
unfolding when
request c file = record {
  url = file;
  user_agent = c.user_agent;
  accept = if length c.mime == 0 then none else some c.mime;
  if_none_match = when c.enable_etags (lookup file c.etags);
  if_modified_since = when c.enable_last_modified (lookup file c.last_modified);
}

-- the text under a key, "" if there is none
unfoldable pub text_at : Text → GoMap Text Text → Text
text_at k m = elim (lookup k m) [ none ↦ [] | some t ↦ t ]

-- Is the body to be read, and its ETag to be kept?
unfoldable pub is_news : FetchConfig → Text → Text → Bool
is_news c file new_etag =
    not c.enable_etags || ((length new_etag == 0) || not (text_eq new_etag (text_at file c.etags)))

-- `parse_time` is http.ParseTime in seconds, `none` for an error.
module _ (parse_time : Text → Option ℕ) where
  unfoldable pub note_last_modified : FetchConfig → Text → Text → FetchConfig
  note_last_modified c file header =
      if not c.enable_last_modified then c else elim (parse_time header) [
        | some t ↦ record c { last_modified = insert file t c.last_modified }
        | none ↦ record c { last_modified = delete file c.last_modified }
      ]

  -- FetchFile, once the server has answered
  unfoldable pub take_response : FetchConfig → Text → Response → FetchConfig × Fetched
  take_response c file r =
      if r.status_code == 304
      then (c, failed (http_not_modified file) (pos 304) true)
      else if not (r.status_code == 200)
      then (
        record c { etags = delete file c.etags; last_modified = delete file c.last_modified },
        failed (http_status r.status_code) (pos r.status_code) true,
      )
      else if is_news c file r.etag
      then (
        note_last_modified (record c { etags = insert file r.etag c.etags }) file r.last_modified,
        elim (r.body) [
          | some text ↦ fetched text (negsuc 0) false
          | none ↦ failed unavailable (negsuc 0) false
        ],
      )
      else (c, failed (identical_etag file r.etag) (pos 200) true)

  unfoldable pub fetch_file : FetchConfig → Outside → Text → FetchConfig × Fetched
  fetch_file c outside file =
      if is_url file
      then elim (outside.respond (request c file)) [
        | none ↦ (c, failed unavailable (negsuc 0) false)
        | some r ↦ take_response c file r
      ]
      else elim (outside.read_file file) [
        | none ↦ (c, failed unavailable (negsuc 0) false)
        | some text ↦ (c, fetched text (negsuc 0) false)
      ]
