-- ===== src/Connection/Routes.antt =====
-- api/v1/google.py over the service, and the ids' pattern of schemas/google.py. The random state, the
-- endpoints' answers and what Redis answers are arguments.
use review_signal.Base.{
  ℕ, Bool, true, false, not, ◌&&◌, ◌||◌, Option, none, some, List, [], leb, if◌then◌else◌, length,
  all, ◌==◌, Text, codes, is_digit, validation_failed_error, external, Result, err, ok, raise,
  ◌>>=◌, ◌>>◌, nat_eq, list_eq, option_eq,
}
use review_signal.Api.Settings.{Settings}
use review_signal.Auth.Token.{compare_digest}
use review_signal.Auth.Routes.{SetCookie}
use review_signal.Jobs.Record.{World}
use review_signal.Jobs.Queue.{enqueue}
use review_signal.Credentials.Record.{SourceCredential}
use review_signal.Connection.Service.{ensure_connected, select_location}
use review_signal.Connection.Oauth.{authorization_url, TokenRequest, GrantResponse, complete}

-- `_STATE_COOKIE` and `_STATE_TTL_SECONDS`
abbrev pub state_cookie : Text
state_cookie = codes "rs_google_oauth_state"

abbrev pub state_ttl_seconds : ℕ
state_ttl_seconds = 600

-- `RESOURCE_ID_PATTERN`
abbrev pub is_id_character : ℕ → Bool
is_id_character c =
    (leb b'A' c && leb c b'Z') || (leb b'a' c && leb c b'z') || is_digit c || c == b'_' || c == b'-'

unfoldable pub is_resource_id : Text → Bool
is_resource_id t = all is_id_character t && leb 1 (length t) && leb (length t) 128

-- A `RedirectResponse` with its cookie.
pub record Redirect : Type 0 where
  pub url : Text
  pub cookie : SetCookie

-- `google_connect`
unfoldable pub google_connect :
    (List (Text × Text) → Text) → Settings → (state : Text) → Result Redirect
unfolding authorization_url
google_connect urlencode settings state = authorization_url urlencode settings state >>= λ url.
    ok (record {
      url = url;
      cookie = record {
        name = state_cookie;
        value = some state;
        max_age = some state_ttl_seconds;
        httponly = true;
        secure = not (settings.app_env == codes "local");
        samesite = codes "lax";
        path = codes "/api/v1/google";
      };
    })

-- The callback's answer: its payload, and the cookie that its response deletes.
pub record Completed : Type 0 where
  pub connected : Bool
  pub cookie : SetCookie

abbrev pub deleted_state : SetCookie
deleted_state = record {
  name = state_cookie;
  value = none;
  max_age = some 0;
  httponly = false;
  secure = false;
  samesite = codes "lax";
  path = codes "/api/v1/google";
}

-- The first test of the callback.
unfoldable pub check_state : (cookie : Option Text) → (state : Text) → Result (Unit {0})
unfolding compare_digest
check_state cookie state =
    let refused : Result (Unit {0}) =
      raise validation_failed_error
        (codes "OAuth state did not match the browser that started the connection.") in
    elim cookie [
      | none ↦ refused
      | some kept ↦ compare_digest kept state >>= λ same. if same then ok tt else refused
    ]

module _ (encrypt : Text → Result Text) (post : TokenRequest → Result GrantResponse)
    (settings : Settings) where
  -- `google_callback`
  unfoldable pub google_callback :
      (code state : Text)
      → (cookie : Option Text) → (id now stored : ℕ) → List SourceCredential
      → Result Completed × List SourceCredential
  unfolding check_state complete
  google_callback code state cookie id now stored rows = elim (check_state cookie state) [
    | err e ↦ (err e, rows)
    | ok u ↦
        let (r, rows') = complete encrypt post settings code id now stored rows in
        ((r >> ok (record { connected = true; cookie = deleted_state })), rows')
  ]

-- `google_select_location`, with the schema's check of its payload in front.
unfoldable pub google_select_location :
    (account_id location_id : Text)
    → ℕ
    → List SourceCredential
    → Result (Unit {0}) × List SourceCredential
unfolding is_resource_id select_location
google_select_location account_id location_id now rows =
    if is_resource_id account_id && is_resource_id location_id
    then select_location account_id location_id now rows
    else (raise (external (codes "RequestValidationError")) [], rows)

-- `JobAcceptedPayload`
pub record JobAcceptedPayload : Type 0 where
  pub job_id : ℕ
  pub status : Text
  pub job_type : Text

-- The body that `google_backfill` and `google_sync` share, by the job's type.
unfoldable pub enqueue_google :
    {R : Type 0}
    → Text
    → List SourceCredential
    → (id now : ℕ) → Result (Unit {0})
    → World R
    → Result JobAcceptedPayload × World R
unfolding ensure_connected enqueue
enqueue_google job_type rows id now push w = elim (ensure_connected rows) [
  | err e ↦ (err e, w)
  | ok u ↦
      let (r, w') = enqueue job_type none 3 id now push w in
      (
        (r >>= λ job_id.
            ok (record { job_id = job_id; status = codes "queued"; job_type = job_type })),
        w',
      )
]

-- `google_backfill` and `google_sync`
abbrev pub google_backfill :
    {R : Type 0}
    → List SourceCredential
    → (id now : ℕ) → Result (Unit {0})
    → World R
    → Result JobAcceptedPayload × World R
google_backfill rows id now push w = enqueue_google (codes "google_backfill") rows id now push w

abbrev pub google_sync :
    {R : Type 0}
    → List SourceCredential
    → (id now : ℕ) → Result (Unit {0})
    → World R
    → Result JobAcceptedPayload × World R
google_sync rows id now push w = enqueue_google (codes "google_sync") rows id now push w
