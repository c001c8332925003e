-- ===== src/Connection/Oauth.antt =====
-- The OAuth exchange of services/google_connection.py. Encoding a query, the token endpoint's answer
-- and the cipher are parameters.
use review_signal.Base.{
  ℕ, ◌+◌, ◌*◌, ◌&&◌, ◌||◌, Option, none, some, List, [], ◌∷◌, ◌++◌, ltb, leb, if◌then◌else◌, ◌==◌,
  Text, codes, decimal_text, is_space, google_not_connected_error, google_api_error, Result, err,
  ok, raise, ◌>>=◌, nat_eq, list_eq, option_eq,
}
use review_signal.Api.Settings.{Settings}
use review_signal.Google.Mapping.{nonempty}
use review_signal.Credentials.Record.{SourceCredential}
use review_signal.Credentials.Repository.{Grant, upsert_credential}
use review_signal.Connection.Service.{google_source, committed}

-- `AUTHORIZATION_URL` and `SCOPE`
abbrev pub authorization_endpoint : Text
authorization_endpoint = codes "https://accounts.google.com/o/oauth2/v2/auth"

abbrev pub oauth_scope : Text
oauth_scope = codes "https://www.googleapis.com/auth/business.manage"

-- `str.split` of white space: the word so far, and the rest.
unfoldable pub words_from : Text → Text → List Text
unfolding is_space
words_from [] [] = []
words_from (w ∷ ws) [] = (w ∷ ws) ∷ []
words_from [] (c ∷ cs) = if is_space c then words_from [] cs else words_from (c ∷ []) cs
words_from (w ∷ ws) (c ∷ cs) =
    if is_space c then (w ∷ ws) ∷ words_from [] cs else words_from ((w ∷ ws) ++ c ∷ []) cs

-- The body of the exchange's request.
pub record TokenRequest : Type 0 where
  pub code : Text
  pub client_id : Text
  pub client_secret : Text
  pub redirect_uri : Text
  pub grant_type : Text

-- The fields that are read of its answer.
pub record GrantBody : Type 0 where
  pub refresh_token : Option Text
  pub access_token : Option Text
  pub expires_in : Option ℕ
  pub scope : Option Text

-- An answer; decoding its body may raise.
pub record GrantResponse : Type 0 where
  pub status_code : ℕ
  pub response_text : Text
  pub json : Result GrantBody

-- `authorization_url`
unfoldable pub authorization_url : (List (Text × Text) → Text) → Settings → Text → Result Text
authorization_url urlencode settings state =
    if settings.google_client_id == [] || settings.google_redirect_uri == []
    then raise google_not_connected_error (
        codes "GOOGLE_CLIENT_ID and GOOGLE_REDIRECT_URI are not configured; set the "
        ++ codes "Google OAuth environment variables before connecting.")
    else ok (
        authorization_endpoint
        ++ b'?'
          ∷ urlencode (
              (codes "client_id", settings.google_client_id)
              ∷ (codes "redirect_uri", settings.google_redirect_uri)
              ∷ (codes "response_type", codes "code")
              ∷ (codes "scope", oauth_scope)
              ∷ (codes "access_type", codes "offline")
              ∷ (codes "prompt", codes "consent")
              ∷ (codes "state", state)
              ∷ []))

abbrev pub scopes_of : Option Text → List Text
scopes_of none = []
scopes_of (some scope_string) = words_from [] scope_string

-- `encrypt(access_token) if access_token else None`
abbrev pub encrypt_option : (Text → Result Text) → Option Text → Result (Option Text)
encrypt_option encrypt none = ok none
encrypt_option encrypt (some t) = encrypt t >>= λ cipher. ok (some cipher)

module _ (encrypt : Text → Result Text) (now : ℕ) where
  -- The arguments of the `upsert`.
  unfoldable pub grant_of : GrantBody → Result Grant
  grant_of payload = elim (nonempty payload.refresh_token) [
    | none ↦ raise google_api_error (
        codes "Google did not grant offline access (no refresh_token in the response); "
        ++ codes "reconnect and approve offline access.")
    | some refresh_token ↦ encrypt refresh_token >>= λ refresh_cipher.
        encrypt_option encrypt (nonempty payload.access_token) >>= λ access_cipher. ok (record {
          refresh_token_encrypted = refresh_cipher;
          access_token_encrypted = access_cipher;
          token_expires_at = elim payload.expires_in [
            | none ↦ none
            | some seconds ↦ some (now + seconds * 1000000)
          ];
          account_id = none;
          location_id = none;
          scopes = scopes_of payload.scope;
        })
  ]

  -- `complete` behind the request.
  unfoldable pub granted_by : Result GrantResponse → Result Grant
  unfolding grant_of decimal_text
  granted_by (err exc) =
      raise google_api_error
        (codes "Could not reach Google's OAuth token endpoint: " ++ exc.message)
  granted_by (ok response) =
      if leb 200 response.status_code && ltb response.status_code 300
      then response.json >>= grant_of
      else raise google_api_error (
          codes "Google token exchange failed ("
          ++ (decimal_text response.status_code ++ (codes "): " ++ response.response_text)))

module _ (encrypt : Text → Result Text) (post : TokenRequest → Result GrantResponse) where
  -- `complete`, with the id of a new row and the readings of the clock.
  unfoldable pub complete :
      Settings
      → (code : Text) → (id now stored : ℕ) → List SourceCredential
      → Result (Unit {0}) × List SourceCredential
  unfolding granted_by upsert_credential
  complete settings code id now stored rows =
      let answer = post (record {
        code = code;
        client_id = settings.google_client_id;
        client_secret = settings.google_client_secret;
        redirect_uri = settings.google_redirect_uri;
        grant_type = codes "authorization_code";
      }) in
      elim (granted_by encrypt now answer) [
        | err e ↦ (err e, rows)
        | ok grant ↦ committed rows (upsert_credential google_source grant id stored rows)
      ]
