-- ===== src/Credentials/Resolve.antt =====
-- Each way in which the worker's access token is resolved.
use review_signal.Base.{
  ℕ, ◌+◌, ◌<◌, ◌≡◌, refl, ◌⊎◌, inl, inr, Bool, true, false, Option, none, some, ltb, ltb→lt, Text,
  Result, nat_eq, list_eq, option_eq,
}
use review_signal.Credentials.Record.{SourceCredential, credential_accepted}
use review_signal.Credentials.Tokens.{
  still_valid, resolve_access_token, expiry_skew, Held, TokenResponse,
}
use review_signal.Credentials.Refreshing.{Refreshed, refresh-Refreshed}

module _ (encrypt decrypt : Text → Result Text) (post : Text → Result TokenResponse) (now : ℕ) where
  still_valid-alive :
      (expires : Option ℕ)
      → (elim expires [ none ↦ false | some expires_at ↦ ltb (now + expiry_skew) expires_at ])
        ≡ true
      → (t : ℕ) × (expires ≡ some t) × (now + expiry_skew < t)
  still_valid-alive none e = cc
  still_valid-alive (some t) e = (t, refl, ltb→lt (now + expiry_skew) t e)

  -- A stored access token was used as it is: it had more than the skew left to live.
  abbrev pub Reused : Held → Result Text → Held → Type 0
  Reused h r h' =
      (cipher : Text) × (expires_at : ℕ) × (h.work.access_token_encrypted ≡ some cipher)
      × (h.work.token_expires_at ≡ some expires_at)
      × (now + expiry_skew < expires_at)
      × (r ≡ decrypt cipher)
      × (h' ≡ h)

  abbrev where_stored : Bool → Option Text → Bool
  where_stored alive none = false
  where_stored alive (some cipher) = alive

  -- A stored access token that has more than the skew left to live.
  abbrev pub is_reusable : SourceCredential → Bool
  is_reusable c = where_stored (still_valid c now) c.access_token_encrypted

  abbrev pub Renewed : Held → Result Text → Held → Type 0
  Renewed h r h' = (is_reusable h.work ≡ false) × Refreshed encrypt decrypt post now h r h'

  -- Where the credential satisfies the table's constraints, resolving its access token either decrypts
  -- the stored one, which lives on for more than the skew, and changes nothing; or, where there is none
  -- such, it refreshes: a token that is returned is stored encrypted and committed, with the grant, the
  -- status and the chosen location kept; where Google answers the grant with 400 or 401, the status
  -- `invalid` is committed and `SourceNotConnectedError` raised; any other error leaves everything as
  -- it was.
  pub resolve_access_token-Resolves :
      (h : Held)
      → credential_accepted h.work ≡ true
      → let (r, h') = resolve_access_token encrypt decrypt post now h in
        (is_reusable h.work ≡ true) × Reused h r h' ⊎ Renewed h r h'
  unfolding resolve_access_token still_valid
  resolve_access_token-Resolves h good = go h.work.access_token_encrypted refl
    where
      Goal : Type 0
      Goal =
          let (r, h') = resolve_access_token encrypt decrypt post now h in
          (is_reusable h.work ≡ true) × Reused h r h' ⊎ Renewed h r h'

      tested :
          (cipher : Text) (b : Bool)
          → h.work.access_token_encrypted ≡ some cipher
          → still_valid h.work now ≡ b
          → Goal
      tested cipher true h₁ h₂ =
          let (t, e₁, e₂) = still_valid-alive h.work.token_expires_at h₂ in
          simp (h₁, h₂, resolve_access_token) (inl (refl, (cipher, t, refl, e₁, e₂, refl, refl)))
      tested cipher false h₁ h₂ =
          simp (h₁, h₂, resolve_access_token)
            (inr (refl, refresh-Refreshed encrypt decrypt post now h good))

      go : (o : Option Text) → h.work.access_token_encrypted ≡ o → Goal
      go none h₁ =
          simp (h₁, resolve_access_token)
            (inr (refl, refresh-Refreshed encrypt decrypt post now h good))
      go (some cipher) h₁ = tested cipher _ h₁ refl
