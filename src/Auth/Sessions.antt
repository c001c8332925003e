-- ===== src/Auth/Sessions.antt =====
-- From a login to the requests that its cookie opens.
use review_signal.Base.{
  ℕ, ◌+◌, ◌*◌, ◌/◌, ◌≡◌, refl, sym, ap, ◌≢◌, Bool, true, false, Option, none, some, [], ◌∷◌, ltb,
  if◌then◌else◌, eq_iff, Text, codes, unauthorized_error, Exception, Result, err, ok, raise,
  >>=-eq-ok, ok-eq, nat_eq, list_eq, option_eq,
}
use review_signal.Api.Settings.{Settings}
use review_signal.Auth.Token.{session_ttl, second, issue_token, verify_token, password_matches}
use review_signal.Auth.Routes.{SetCookie, Router, is_guarded, login, require_session, serve}
use review_signal.Auth.Verified.{IsHexDigest, verify_token-issue_token, IsLive, verify_token-IsLive}

module _ (sign : Text → Text → Text) (settings : Settings) where
  password_matches-eq :
      (supplied configured : Text)
      → password_matches supplied configured ≡ true
      → (supplied ≡ configured) × (configured ≢ [])
  unfolding password_matches
  password_matches-eq supplied [] h = cc h
  password_matches-eq supplied (c ∷ cs) h = ((eq_iff supplied (c ∷ cs)).0 h, λ e. cc e)

  -- What the cookie of a login opens at a later time.
  abbrev pub Opens : (now later : ℕ) → SetCookie → Type 0
  Opens now later cookie = require_session sign settings cookie.value later ≡ (
      if ltb later ((now + session_ttl) / second * second)
      then ok tt
      else raise unauthorized_error (codes "Authentication is required."))

  opens :
      (now later : ℕ) (cookie : SetCookie)
      → IsHexDigest sign
      → cookie.value ≡ some (issue_token sign settings.session_secret session_ttl now)
      → Opens now later cookie
  unfolding require_session
  opens now later cookie hex e =
      simp (e, verify_token-issue_token sign settings.session_secret session_ttl now later hex) refl

  -- A login succeeds only with the configured password, and never where none is configured; its
  -- cookie, kept from scripts, then opens every guarded route until twelve hours after the login, cut
  -- to a whole second, and from then on only raises `UnauthorizedError`.
  pub login-Opens :
      (password : Text) (now later : ℕ) (cookie : SetCookie)
      → IsHexDigest sign
      → login sign settings password now ≡ ok cookie
      → (password ≡ settings.operator_password)
        × (settings.operator_password ≢ [])
        × (cookie.httponly ≡ true)
        × Opens now later cookie
  unfolding login
  login-Opens password now later cookie hex e =
      go (password_matches password settings.operator_password) refl
    where
      Goal : Type 0
      Goal =
          (password ≡ settings.operator_password)
          × (settings.operator_password ≢ [])
          × (cookie.httponly ≡ true)
          × Opens now later cookie

      go : (b : Bool) → password_matches password settings.operator_password ≡ b → Goal
      go false h = cc (rw (h, login) at e)
      go true h =
          let fields = password_matches-eq password settings.operator_password h in
          let same = ok-eq (rw (h, login) at e) in
          (
            fields.0,
            fields.1,
            ap (λ (c : SetCookie). c.httponly) (sym same),
            opens now later cookie hex (ap (λ (c : SetCookie). c.value) (sym same)),
          )

  require_session-IsLive :
      (o : Option Text) (now : ℕ)
      → require_session sign settings o now ≡ ok tt
      → (t : Text) × (o ≡ some t) × IsLive sign settings.session_secret t now
  unfolding require_session
  require_session-IsLive none now e = cc e
  require_session-IsLive (some t) now e =
      let (valid, e₃, e₄) = >>=-eq-ok (verify_token sign settings.session_secret t now) _ e in
      (t, refl, verify_token-IsLive sign settings.session_secret t now (accepted valid e₃ e₄))
    where
      accepted :
          (valid : Bool)
          → verify_token sign settings.session_secret t now ≡ ok valid
          → ◌≡◌ {A = Result (Unit {0})}
              (if valid
                then ok tt
                else raise unauthorized_error (codes "Authentication is required."))
              (ok tt)
          → verify_token sign settings.session_secret t now ≡ ok true
      accepted true h k = h
      accepted false h k = cc k

  require_session-refused :
      (o : Option Text) (now : ℕ) (e : Exception)
      → require_session sign settings o now ≡ err e
      → (t : Text) → o ≡ some t
      → verify_token sign settings.session_secret t now ≢ ok true
  unfolding require_session
  require_session-refused o now e refused t same valid =
      cc (rw (same, require_session, valid) at refused)

  -- What a guarded route does with a token: with a live one it does what its handler does; with none,
  -- or one that does not verify, it raises an error that is the same whatever the handler does.
  pub data Guards (A : Type 0) (router : Router) (token : Option Text) (now : ℕ) : Type 0 where
    let_in :
        (t : Text)
        → token ≡ some t
        → IsLive sign settings.session_secret t now
        → ((handler : Unit {0} → Result A)
            → serve sign settings router token now handler ≡ handler tt)
        → Guards A router token now
    kept_out :
        (e : Exception)
        → ((t : Text) → token ≡ some t → verify_token sign settings.session_secret t now ≢ ok true)
        → ((handler : Unit {0} → Result A) → serve sign settings router token now handler ≡ err e)
        → Guards A router token now

  -- A guarded route answers as its handler does for a request whose cookie is a live token of this
  -- deployment's secret; for a request without a token that verifies it raises one error, whatever its
  -- handler does: the handler is not reached.
  pub serve-IsLive :
      (A : Type 0) (router : Router) (token : Option Text) (now : ℕ)
      → is_guarded router ≡ true
      → Guards A router token now
  unfolding serve
  serve-IsLive A router token now guarded = go _ refl
    where
      go :
          (r : Result (Unit {0}))
          → require_session sign settings token now ≡ r
          → Guards A router token now
      go (err e) k =
          kept_out e (require_session-refused token now e k)
            (λ handler. rw (guarded, serve, k) refl)
      go (ok u) k =
          let (t, same, alive) = require_session-IsLive token now k in
          let_in t same alive (λ handler. rw (guarded, serve, k) refl)
