-- ===== src/Google/Http.antt =====
-- integrations/google/http.py: the errors that an HTTP status stands for, and the reviews client's
-- request of client.py. What the HTTP library answers is an argument.
use review_signal.Base.{
  ℕ, ◌≡◌, refl, ◌≢◌, ◌⊎◌, ◌||◌, ◌++◌, arith, if◌then◌else◌, ◌==◌, Text, codes, decimal_text,
  source_fetch_error, source_not_connected_error, Result, ok, err, raise, ◌>>◌, nat_eq, list_eq,
  option_eq,
}

-- A response: its status, Google's `error.message` or the raw text, and `json()`, which raises on a
-- body that is no JSON.
pub record Response (Body : Type 0) : Type 0 where
  pub status_code : ℕ
  pub error_message : Text
  pub json : Result Body

-- `raise_for_status`
unfoldable pub raise_for_status : {Body : Type 0} → Response Body → Text → Result (Unit {0})
unfolding decimal_text
raise_for_status r what =
    if r.status_code == 401 || r.status_code == 403
    then raise source_not_connected_error (
        codes "Google credentials rejected ("
        ++ (decimal_text r.status_code ++ (codes "): " ++ r.error_message)))
    else if r.status_code == 200
    then ok tt
    else raise source_fetch_error (
        codes "Google "
        ++ (what
            ++ (codes " request failed ("
                ++ (decimal_text r.status_code ++ (codes "): " ++ r.error_message)))))

-- A GET by `httpx`: `err` stands for an `httpx.RequestError`, which the clients translate.
unfoldable pub get_json : {Body : Type 0} → Result (Response Body) → Text → Result Body
get_json (err e) what =
    raise source_fetch_error (codes "Google " ++ (what ++ (codes " request failed: " ++ e.message)))
get_json (ok r) what = raise_for_status r what >> r.json

-- By status: 401 and 403 ask for a new connection, 200 gives what the body decodes to, all else may be
-- retried; a request that got no answer may be retried too.
abbrev pub Translates : {Body : Type 0} → Result (Response Body) → Result Body → Type 0
Translates (err e) (ok b) = ⊥
Translates (err e) (err x) = x.class_of ≡ source_fetch_error
Translates (ok r) (ok b) = (r.status_code ≡ 200) × (r.json ≡ ok b)
Translates (ok r) (err x) =
    ((r.status_code ≡ 401) ⊎ (r.status_code ≡ 403)) × (x.class_of ≡ source_not_connected_error)
    ⊎ (r.status_code ≡ 200) × (r.json ≡ err x)
    ⊎ (r.status_code ≢ 200)
      × (r.status_code ≢ 401)
      × (r.status_code ≢ 403)
      × (x.class_of ≡ source_fetch_error)

-- Every answer of the HTTP library becomes the decoded body, exactly at status 200 with a body that
-- decodes, or an error: at 401 and 403 `SourceNotConnectedError`; at 200 the decoder's own, which is
-- not translated; at any other status, and without an answer, `SourceFetchError`.
pub get_json-Translates :
    {Body : Type 0} (answer : Result (Response Body)) (what : Text)
    → Translates answer (get_json answer what)
unfolding get_json raise_for_status
get_json-Translates (err e) what = refl
get_json-Translates {Body = Body} (ok r) what = decoded r.json refl
  where
    decoded : (o : Result Body) → r.json ≡ o → Translates (ok r) (get_json (ok r) what)
    decoded (ok b) h = ground arith
    decoded (err e) h = ground arith
