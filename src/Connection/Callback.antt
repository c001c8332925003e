-- ===== src/Connection/Callback.antt =====
-- The callback of the OAuth flow, and the browser's cookie that binds it.
use review_signal.Auth.Verified.{same_digest, compare_digest-true}
use review_signal.Credentials.Record.{SourceCredential}
use review_signal.Api.Settings.{Settings}
use review_signal.Auth.Token.{compare_digest}
use review_signal.Connection.Oauth.{TokenRequest, GrantResponse, complete, authorization_url}
use review_signal.Base.{
  ℕ, ◌≡◌, refl, ap, Bool, true, false, Option, none, some, List, if◌then◌else◌, Text, codes,
  is_ascii, validation_failed_error, Result, err, ok, raise, >>=-eq-ok, ◌>>◌, nat_eq, list_eq,
  option_eq, ◌⊎◌, inl, inr, Exception, not, ◌&&◌, ◌==◌, sym, ok-eq,
}
use review_signal.Connection.View.{Connection, view, Accepted, unselected}
use review_signal.Connection.Steps.{exchange-Stepped, Step, exchange, granted_anew, not_granted}
use review_signal.Connection.Routes.{
  check_state, google_callback, Completed, deleted_state, google_connect, Redirect, state_cookie,
  state_ttl_seconds,
}
use review_signal.Auth.Routes.{SetCookie}

-- The cookie that a browser still holds behind an answer (RFC 6265): a `Set-Cookie` writes over the
-- one of the same name and path, or expires it, and leaves every other. Only an answer that is not an
-- error carries the deletion, since the handler of an error builds a response of its own.
abbrev pub held_after : SetCookie → Result Completed → Option SetCookie
held_after held (err e) = some held
held_after held (ok done) =
    if done.cookie.name == held.name && done.cookie.path == held.path
    then (elim done.cookie.value [ none ↦ none | some v ↦ some done.cookie ])
    else some held

-- The state that the callback reads of what the browser holds.
abbrev pub sent : Option SetCookie → Option Text
sent none = none
sent (some held) = if held.name == state_cookie then held.value else none

check_state-eq :
    (cookie : Option Text) (state : Text) (u : Unit {0})
    → check_state cookie state ≡ ok u
    → cookie ≡ some state
unfolding check_state compare_digest
check_state-eq none state u h = cc h
check_state-eq (some kept) state u h =
    let (same, e₁, e₂) = >>=-eq-ok (compare_digest kept state) _ h in ap some (compared same e₁ e₂)
  where
    compared :
        (same : Bool)
        → compare_digest kept state ≡ ok same
        → ◌≡◌ {A = Result (Unit {0})}
            (if same
              then ok tt
              else raise validation_failed_error
                  (codes "OAuth state did not match the browser that started the connection."))
            (ok u)
        → kept ≡ state
    compared true e k = compare_digest-true kept state e
    compared false e k = cc k

check_state-same : (state : Text) → is_ascii state ≡ true → check_state (some state) state ≡ ok tt
unfolding check_state
check_state-same state h = rw (check_state, same_digest state h) refl

exchange-cases :
    {code : Text} {id now stored : ℕ} {s t : Connection} {r : Result (Unit {0})}
    → Step false s (exchange code id now stored) r t
    → (r ≡ ok tt) × (t ≡ unselected) ⊎ ((e : Exception) × (r ≡ err e) × (t ≡ s))
exchange-cases granted_anew = inl (refl, refl)
exchange-cases not_granted = inr (_, refl, refl)

module _ (encrypt : Text → Result Text) (post : TokenRequest → Result GrantResponse)
    (settings : Settings) where
  -- What a callback leaves behind: only a browser that holds the state opens a connection.
  abbrev pub Bound :
      (state : Text)
      → Option Text
      → List SourceCredential
      → Result Completed × List SourceCredential
      → Type 0
  Bound state cookie rows (ok done, rows') =
      (cookie ≡ some state)
      × (done.connected ≡ true)
      × (done.cookie.value ≡ none)
      × Accepted rows'
      × (view rows' ≡ unselected)
  Bound state cookie rows (err e, rows') = view rows' ≡ view rows

  -- A callback that succeeds comes from the browser that holds the state as its cookie; it leaves a
  -- connection without a chosen location, and its answer deletes the cookie. One that raises leaves
  -- the connection in the state it was in.
  pub google_callback-Bound :
      (code state : Text) (cookie : Option Text) (id now stored : ℕ) (rows : List SourceCredential)
      → Accepted rows
      → Bound state cookie rows
          (google_callback encrypt post settings code state cookie id now stored rows)
  unfolding google_callback
  google_callback-Bound code state cookie id now stored rows good =
      go (check_state cookie state) refl
    where
      go :
          (o : Result (Unit {0}))
          → check_state cookie state ≡ o
          → Bound state cookie rows
              (google_callback encrypt post settings code state cookie id now stored rows)
      go (err e) h = rw (google_callback, h) refl
      go (ok u) h =
          let (sound, step) =
            exchange-Stepped encrypt post settings false code id now stored rows good in
          elim (exchange-cases step) [
            | inl (fine, seen) ↦
                rw (google_callback, h, fine)
                  (check_state-eq cookie state u h, refl, refl, sound, seen)
            | inr (e, raised, seen) ↦ rw (google_callback, h, raised) seen
          ]

  -- What the next callback of the same browser does, by how this one ended.
  abbrev pub Replayed :
      SetCookie
      → (code' state : Text) → (id now stored : ℕ) → Result Completed × List SourceCredential
      → Type 0
  Replayed held code' state id now stored (ok done, rows) =
      google_callback encrypt post settings code' state (sent (held_after held (ok done))) id now
        stored rows
      ≡ (
        raise validation_failed_error
            (codes "OAuth state did not match the browser that started the connection."),
        rows,
      )
  Replayed held code' state id now stored (err e, rows) =
      (google_callback encrypt post settings code' state (sent (held_after held (err e))) id now
        stored rows).1
      ≡ (complete encrypt post settings code' id now stored rows).1

  state_held : Text → SetCookie
  state_held state = record {
    name = state_cookie;
    value = some state;
    max_age = some state_ttl_seconds;
    httponly = true;
    secure = not (settings.app_env == codes "local");
    samesite = codes "lax";
    path = codes "/api/v1/google";
  }

  connect-cookie :
      (urlencode : List (Text × Text) → Text) (state : Text) (redirect : Redirect)
      → google_connect urlencode settings state ≡ ok redirect
      → redirect.cookie ≡ state_held state
  unfolding google_connect state_held
  connect-cookie urlencode state redirect e =
      let (url, e₁, e₂) = >>=-eq-ok (authorization_url urlencode settings state) _ e in
      ap (λ (r : Redirect). r.cookie) (sym (ok-eq e₂))

  -- Between the connect route and its callback: a state that the connect route put into the browser is
  -- used up by the callback that succeeds, whose deletion hits that very cookie: the same browser's
  -- next callback with it raises `ValidationFailedError` and changes nothing. A callback whose exchange
  -- raises does not use it up: the next one with the same state does its exchange.
  pub google_callback-Replayed :
      (urlencode : List (Text × Text) → Text) (redirect : Redirect) (code code' state : Text)
      (id now stored id' now' stored' : ℕ) (rows : List SourceCredential)
      → google_connect urlencode settings state ≡ ok redirect
      → is_ascii state ≡ true
      → Replayed redirect.cookie code' state id' now' stored' (
          google_callback encrypt post settings code state
            (sent (some redirect.cookie))
            id
            now
            stored
            rows)
  unfolding google_callback check_state state_held
  google_callback-Replayed urlencode redirect code code' state id now stored id' now' stored' rows
        begun ascii =
      rw (connect-cookie urlencode state redirect begun) (
        rw (google_callback, check_state-same state ascii)
          (go (complete encrypt post settings code id now stored rows).0
            (complete encrypt post settings code id now stored rows).1))
    where
      go :
          (r : Result (Unit {0})) (rows' : List SourceCredential)
          → Replayed
              (state_held state)
              code'
              state
              id'
              now'
              stored'
              ((r >> ok (record { connected = true; cookie = deleted_state })), rows')
      go (ok u) rows' = refl
      go (err e) rows' = rw (google_callback, check_state-same state ascii) refl
