-- ===== src/Credentials/Refreshing.antt =====
-- What a refresh in services/google_token.py does, by what Google answers to the grant.
use review_signal.Base.{
  ℕ, ◌+◌, ◌*◌, ◌≡◌, refl, ◌⊎◌, inl, inr, Bool, true, false, ◌||◌, Option, none, some, ◌++◌, arith,
  leb, if◌then◌else◌, ◌==◌, Text, codes, decimal_text, source_fetch_error,
  source_not_connected_error, Result, err, ok, raise, nat_eq, list_eq, option_eq,
}
use review_signal.Google.Mapping.{nonempty}
use review_signal.Credentials.Record.{SourceCredential, credential_accepted, CredentialStatus}
use review_signal.Credentials.Tokens.{
  refresh, lifetime, take_response, Held, commit_credential, TokenBody, TokenResponse, store_token,
  take_token, reject_grant,
}

module _ (encrypt decrypt : Text → Result Text) (post : Text → Result TokenResponse) (now : ℕ) where
  -- What Google's token endpoint answers to the grant of a credential, where it answers at all.
  abbrev by_answer : Result TokenResponse → Option ℕ
  by_answer (err e) = none
  by_answer (ok response) = some response.status_code

  abbrev by_token : Result Text → Option ℕ
  by_token (err e) = none
  by_token (ok refresh_token) = by_answer (post refresh_token)

  abbrev by_grant : Option Text → Option ℕ
  by_grant none = none
  by_grant (some cipher) = by_token (decrypt cipher)

  abbrev pub grant_status : SourceCredential → Option ℕ
  grant_status c = by_grant c.refresh_token_encrypted

  -- The two statuses by which it rejects a grant.
  abbrev pub is_refusal : Option ℕ → Bool
  is_refusal none = false
  is_refusal (some status_code) = status_code == 400 || status_code == 401

  -- What a refresh may do to the credential `h`, by whether Google rejects its grant: if so, mark the
  -- grant as rejected, committed; if not, store a new token, committed, or leave everything as it was.
  abbrev pub Ends : Bool → Held → Result Text → Held → Type 0
  Ends refused h (ok token) h' =
      (cipher : Text) × (encrypt token ≡ ok cipher)
      × (h'.work.access_token_encrypted ≡ some cipher)
      × (h'.work.refresh_token_encrypted ≡ h.work.refresh_token_encrypted)
      × (h'.work.status ≡ h.work.status)
      × (h'.work.source ≡ h.work.source)
      × (h'.work.account_id ≡ h.work.account_id)
      × (h'.work.location_id ≡ h.work.location_id)
      × (h'.committed ≡ h'.work)
      × (refused ≡ false)
  Ends refused h (err e) h' =
      (h' ≡ h) × (refused ≡ false)
      ⊎ (e.class_of ≡ source_not_connected_error)
        × (h'.committed ≡ record h.work { status = CredentialStatus.invalid })
        × (refused ≡ true)

  abbrev pub Refreshed : Held → Result Text → Held → Type 0
  Refreshed h = Ends (is_refusal (grant_status h.work)) h

  commit-accepted :
      (h : Held)
      → credential_accepted h.work ≡ true
      → commit_credential h ≡ (ok tt, record h { committed = h.work })
  unfolding commit_credential
  commit-accepted h good = rw (good, commit_credential) refl

  -- The assignments of a refresh leave what the table's constraints read.
  stored-accepted :
      (c : SourceCredential) (cipher : Text) (expires_at : ℕ)
      → credential_accepted c ≡ true
      → credential_accepted (record c {
        access_token_encrypted = some cipher;
        token_expires_at = some expires_at;
        updated_at = now;
      })
        ≡ true
  unfolding credential_accepted
  stored-accepted c cipher expires_at good = good

  pub invalid-accepted :
      (c : SourceCredential)
      → credential_accepted c ≡ true
      → credential_accepted (record c { status = CredentialStatus.invalid }) ≡ true
  unfolding credential_accepted
  invalid-accepted c good = ground arith

  store_token-Refreshed :
      (body : TokenBody) (h : Held) (token cipher : Text)
      → credential_accepted h.work ≡ true
      → encrypt token ≡ ok cipher
      → let (r, h') = store_token encrypt decrypt post now token (lifetime body) cipher h in
        Ends false h r h'
  unfolding store_token commit_credential
  store_token-Refreshed body h token cipher good e =
      rw
        (
          stored-accepted h.work cipher (now + lifetime body * 1000000) good,
          store_token,
          commit_credential,
        )
        (cipher, e, refl, refl, refl, refl, refl, refl, refl, refl)

  take_token-Refreshed :
      (body : TokenBody) (h : Held)
      → credential_accepted h.work ≡ true
      → let (r, h') = take_token encrypt decrypt post now body h in Ends false h r h'
  unfolding take_token
  take_token-Refreshed body h good = go _ refl
    where
      sealed :
          (token : Text) (o : Result Text)
          → nonempty body.access_token ≡ some token
          → encrypt token ≡ o
          → let (r, h') = take_token encrypt decrypt post now body h in Ends false h r h'
      sealed token (err e) h₁ h₂ = rw (h₁, h₂, take_token) (inl (refl, refl))
      sealed token (ok cipher) h₁ h₂ =
          rw (h₁, h₂, take_token) (store_token-Refreshed body h token cipher good h₂)

      go :
          (o : Option Text)
          → nonempty body.access_token ≡ o
          → let (r, h') = take_token encrypt decrypt post now body h in Ends false h r h'
      go none h₁ = rw (h₁, take_token) (inl (refl, refl))
      go (some token) h₁ = sealed token _ h₁ refl

  reject_grant-Refreshed :
      (h : Held)
      → credential_accepted h.work ≡ true
      → let (r, h') = reject_grant encrypt decrypt post now h in Ends true h r h'
  unfolding reject_grant
  reject_grant-Refreshed h good =
      rw
        (
          commit-accepted (record h { work = record h.work { status = CredentialStatus.invalid } })
              (invalid-accepted h.work good),
          reject_grant,
        )
        (inr (refl, refl, refl))

  take_response-Refreshed :
      (response : TokenResponse) (h : Held)
      → credential_accepted h.work ≡ true
      → let (r, h') = take_response encrypt decrypt post now response h in
        Ends (is_refusal (some response.status_code)) h r h'
  unfolding take_response
  take_response-Refreshed response h good =
      go (response.status_code == 400 || response.status_code == 401) refl
    where
      decoded :
          (o : Result TokenBody)
          → let (r, h') : Result Text × Held = elim o [
            | err e ↦ (err e, h)
            | ok body ↦ take_token encrypt decrypt post now body h
          ] in
            Ends false h r h'
      decoded (err e) = inl (refl, refl)
      decoded (ok body) = take_token-Refreshed body h good

      other :
          (b : Bool)
          → let (r, h') : Result Text × Held =
              if b
              then (
                raise source_fetch_error (
                    codes "Google token endpoint returned HTTP "
                    ++ (decimal_text response.status_code ++ codes ".")),
                h,
              )
              else (elim response.json [
                | err e ↦ (err e, h)
                | ok body ↦ take_token encrypt decrypt post now body h
              ]) in
            Ends false h r h'
      other true = inl (refl, refl)
      other false = decoded response.json

      go :
          (b : Bool)
          → (response.status_code == 400 || response.status_code == 401) ≡ b
          → let (r, h') = take_response encrypt decrypt post now response h in
            Ends (is_refusal (some response.status_code)) h r h'
      go true e = rw (e, take_response) (reject_grant-Refreshed h good)
      go false e = rw (e, take_response) (other (leb 300 response.status_code))

  pub refresh-Refreshed :
      (h : Held)
      → credential_accepted h.work ≡ true
      → let (r, h') = refresh encrypt decrypt post now h in Refreshed h r h'
  unfolding refresh
  refresh-Refreshed h good = go h.work.refresh_token_encrypted refl
    where
      answered :
          (cipher plain : Text) (o : Result TokenResponse)
          → h.work.refresh_token_encrypted ≡ some cipher
          → decrypt cipher ≡ ok plain
          → post plain ≡ o
          → let (r, h') = refresh encrypt decrypt post now h in Refreshed h r h'
      answered cipher plain (err e) h₁ h₂ h₃ = simp (h₁, h₂, h₃, refresh) (inl (refl, refl))
      answered cipher plain (ok response) h₁ h₂ h₃ =
          simp (h₁, h₂, h₃, refresh) (take_response-Refreshed response h good)

      opened :
          (cipher : Text) (o : Result Text)
          → h.work.refresh_token_encrypted ≡ some cipher
          → decrypt cipher ≡ o
          → let (r, h') = refresh encrypt decrypt post now h in Refreshed h r h'
      opened cipher (err e) h₁ h₂ = simp (h₁, h₂, refresh) (inl (refl, refl))
      opened cipher (ok plain) h₁ h₂ = answered cipher plain _ h₁ h₂ refl

      go :
          (o : Option Text)
          → h.work.refresh_token_encrypted ≡ o
          → let (r, h') = refresh encrypt decrypt post now h in Refreshed h r h'
      go none h₁ = simp (h₁, refresh) (inl (refl, refl))
      go (some cipher) h₁ = opened cipher _ h₁ refl
