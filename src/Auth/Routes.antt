-- ===== src/Auth/Routes.antt =====
-- api/v1/auth.py, api/deps.py and the mounting of api/v1/router.py.
use review_signal.Base.{
  ℕ, ◌/◌, Bool, true, false, not, Option, none, some, if◌then◌else◌, ◌==◌, Text, codes,
  unauthorized_error, Result, ok, raise, ◌>>=◌, nat_eq, list_eq, option_eq,
}
use review_signal.Api.Settings.{Settings}
use review_signal.Auth.Token.{session_ttl, second, issue_token, verify_token, password_matches}

-- A `Set-Cookie` header; without a value it deletes the cookie.
pub record SetCookie : Type 0 where
  pub name : Text
  pub value : Option Text
  pub max_age : Option ℕ
  pub httponly : Bool
  pub secure : Bool
  pub samesite : Text
  pub path : Text

-- `SESSION_COOKIE`
abbrev pub session_cookie : Text
session_cookie = codes "rs_session"

-- The mounted routers.
pub data Router : Type 0 where
  public_router auth_router system_router google_router evaluation_router : Router
  reviews_router overview_router taxonomy_router trends_router : Router
  insights_router settings_router : Router

-- Which of them `api_router` mounts with `GUARDED`.
unfoldable pub is_guarded : Router → Bool
is_guarded public_router = false
is_guarded auth_router = false
is_guarded system_router = true
is_guarded google_router = true
is_guarded evaluation_router = true
is_guarded reviews_router = true
is_guarded overview_router = true
is_guarded taxonomy_router = true
is_guarded trends_router = true
is_guarded insights_router = true
is_guarded settings_router = true

module _ (sign : Text → Text → Text) (settings : Settings) where
  -- `login`: the cookie that is set.
  unfoldable pub login : (password : Text) → (now : ℕ) → Result SetCookie
  unfolding issue_token password_matches
  login password now =
      if not (password_matches password settings.operator_password)
      then raise unauthorized_error (codes "Invalid credentials.")
      else ok (record {
        name = session_cookie;
        value = some (issue_token sign settings.session_secret session_ttl now);
        max_age = some (session_ttl / second);
        httponly = true;
        secure = not (settings.app_env == codes "local");
        samesite = codes "lax";
        path = codes "/";
      })

  -- `logout`: the cookie that is deleted.
  unfoldable pub logout : SetCookie
  logout = record {
    name = session_cookie;
    value = none;
    max_age = some 0;
    httponly = false;
    secure = false;
    samesite = codes "lax";
    path = codes "/";
  }

  -- `require_session`, on the cookie's value.
  unfoldable pub require_session : Option Text → ℕ → Result (Unit {0})
  require_session none now = raise unauthorized_error (codes "Authentication is required.")
  require_session (some token) now =
      verify_token sign settings.session_secret token now >>= λ valid.
      (if valid then ok tt else raise unauthorized_error (codes "Authentication is required."))

  -- A request to a route of a router, with the route's own answer.
  unfoldable pub serve : {A : Type 0} → Router → Option Text → ℕ → (Unit {0} → Result A) → Result A
  serve router token now handler =
      if is_guarded router then (require_session token now >>= λ u. handler u) else handler tt
