-- ===== src/Connection/Machine.antt =====
-- The whole connection as a machine that refines its abstract state.
use review_signal.Connection.Discovery.{resolve_loaded, access_token}
use review_signal.Credentials.Refreshing.{Refreshed, invalid-accepted, is_refusal, grant_status}
use review_signal.Credentials.Resolve.{resolve_access_token-Resolves, is_reusable}
use review_signal.Connection.Simulation.{found_granted}
use review_signal.Credentials.Repository.{find_credential, replace_credential}
use review_signal.Connection.Service.{google_source}
use review_signal.Credentials.Tokens.{load_credential, TokenResponse, Held}
use review_signal.Base.{
  ◌≡◌, refl, ap, ◌∙◌, Bool, true, false, Option, none, some, List, arith, Text, ok, ok-eq, nat_eq,
  list_eq, option_eq, ℕ, ◌⊎◌, inl, inr, Result, err, if◌then◌else◌,
}
use review_signal.Credentials.Record.{
  SourceCredential, credential_accepted, CredentialStatus, is_connected,
}
use review_signal.Connection.View.{
  view_row, view, is_granted, granted_row, Accepted, find-Accepted, view_parts,
}
use review_signal.Connection.Steps.{
  rejected, view-found, Step, use_token, view-replace, resolved, Stepped,
}

-- The guard of the worker lets a credential through only from a granted state, and always from one.
pub load_credential-granted :
    (rows : List SourceCredential) (c : SourceCredential)
    → load_credential google_source rows ≡ ok c
    → (find_credential google_source rows ≡ some c) × (is_granted (view rows) ≡ true)
unfolding load_credential view
load_credential-granted rows c e = go (find_credential google_source rows) refl
  where
    Goal : Type 0
    Goal = (find_credential google_source rows ≡ some c) × (is_granted (view rows) ≡ true)

    live :
        (d : SourceCredential) (b : Bool) (o : Option Text)
        → find_credential google_source rows ≡ some d
        → is_connected d.status ≡ b
        → d.refresh_token_encrypted ≡ o
        → Goal
    live d false o h k t = cc (simp (h, k, t, load_credential) at e)
    live d true none h k t = cc (simp (h, k, t, load_credential) at e)
    live d true (some r) h k t =
        let same : ok d ≡ ok c = simp (h, k, t, load_credential) at e in
        let it = ok-eq same in
        (h ∙ ap some it, ap is_granted (view-found rows d h) ∙ granted_row d ∙ k)

    go : (o : Option SourceCredential) → find_credential google_source rows ≡ o → Goal
    go none h = cc (rw (h, load_credential) at e)
    go (some d) h = live d _ _ h refl refl

pub load_credential-found :
    (rows : List SourceCredential)
    → Accepted rows
    → is_granted (view rows) ≡ true
    → (c : SourceCredential) × (load_credential google_source rows ≡ ok c)
      × (find_credential google_source rows ≡ some c)
unfolding load_credential credential_accepted
load_credential-found rows good h =
    let (c, found, live) = found_granted rows h in
    let fit = find-Accepted google_source rows c good found in
    held c found live fit c.refresh_token_encrypted refl
  where
    held :
        (c : SourceCredential)
        → find_credential google_source rows ≡ some c
        → c.status ≡ CredentialStatus.connected
        → credential_accepted c ≡ true
        → (o : Option Text) → c.refresh_token_encrypted ≡ o
        → (d : SourceCredential) × (load_credential google_source rows ≡ ok d)
          × (find_credential google_source rows ≡ some d)
    held c found live fit none t = absurd (ground arith)
    held c found live fit (some r) t = (c, simp (found, live, t, load_credential) refl, found)

-- The fields that the program cannot change apart from the connection's state.
abbrev Alike : SourceCredential → SourceCredential → Type 0
Alike c d =
    (d.source ≡ c.source)
    × (d.status ≡ c.status)
    × (d.account_id ≡ c.account_id)
    × (d.location_id ≡ c.location_id)
    × (d.refresh_token_encrypted ≡ c.refresh_token_encrypted)

Alike-view : (c d : SourceCredential) → Alike c d → view_row d ≡ view_row c
Alike-view c d (own, s, a, l, t) =
    ap (λ x. view_parts x d.account_id d.location_id) s
    ∙ ap (λ x. view_parts c.status x d.location_id) a
    ∙ ap (λ x. view_parts c.status c.account_id x) l

Alike-accepted :
    (c d : SourceCredential)
    → Alike c d
    → credential_accepted c ≡ true
    → credential_accepted d ≡ true
unfolding credential_accepted
Alike-accepted c d (own, s, a, l, t) good = simp (own, s, a, l, t) good

-- An answer without its value.
abbrev pub answer_of : {A : Type 0} → Result A → Result (Unit {0})
answer_of (ok a) = ok tt
answer_of (err e) = err e

module _ (encrypt decrypt : Text → Result Text) (post : Text → Result TokenResponse) (now : ℕ) where
  replace-view :
      (refused : Bool) (rows : List SourceCredential) (c d : SourceCredential) (r : Result Text)
      → Accepted rows
      → load_credential google_source rows ≡ ok c
      → (d ≡ c) ⊎ Alike c d
      → refused ≡ false
      → Accepted (replace_credential google_source d rows)
        × Step refused
            (view rows)
            (use_token now)
            (answer_of r)
            (view (replace_credential google_source d rows))
  replace-view refused rows c d r good h kept let_in =
      let (found, live) = load_credential-granted rows c h in
      let alike : Alike c d = elim kept [
        | inl same ↦ rw (same) (refl, refl, refl, refl, refl)
        | inr a ↦ a
      ] in
      let (sound, seen) =
        view-replace rows c d good found alike.0
          (Alike-accepted c d alike (find-Accepted google_source rows c good found)) in
      (
        sound,
        rw (seen, Alike-view c d alike, ← view-found rows c found) (resolved (λ e. live) let_in),
      )

  Refreshed-Step :
      (rows : List SourceCredential) (c : SourceCredential) (r : Result Text) (h' : Held)
      → Accepted rows
      → load_credential google_source rows ≡ ok c
      → Refreshed encrypt decrypt post now (record { work = c; committed = c }) r h'
      → Accepted (replace_credential google_source h'.committed rows)
        × Step
            (is_refusal encrypt decrypt post now (grant_status encrypt decrypt post now c))
            (view rows)
            (use_token now)
            (answer_of r)
            (view (replace_credential google_source h'.committed rows))
  Refreshed-Step rows c (ok token) h' good h (cipher, e, a, t, s, own, acc, loc, done, let_in) =
      replace-view _ rows c h'.committed (ok token) good h (inr (rw (done) (own, s, acc, loc, t)))
        let_in
  Refreshed-Step rows c (err e) h' good h (inl (same, let_in)) =
      replace-view _ rows c h'.committed (err e) good h (inl (ap (λ (x : Held). x.committed) same))
        let_in
  Refreshed-Step rows c (err e) h' good h (inr (class, done, refused)) =
      let (found, live) = load_credential-granted rows c h in
      let fit = find-Accepted google_source rows c good found in
      let (sound, seen) =
        view-replace rows c (record c { status = CredentialStatus.invalid }) good found refl
          (invalid-accepted encrypt decrypt post now c fit) in
      rw (done, seen) (sound, rejected live class refused)

  -- Google rejects the grant that a request for a token reads, where it needs the grant at all.
  abbrev withdraws_by : Result SourceCredential → Bool
  withdraws_by (err e) = false
  withdraws_by (ok c) =
      if is_reusable encrypt decrypt post now c
      then false
      else is_refusal encrypt decrypt post now (grant_status encrypt decrypt post now c)

  abbrev pub withdraws : List SourceCredential → Bool
  withdraws rows = withdraws_by (load_credential google_source rows)

  pub use_token-Stepped :
      (rows : List SourceCredential)
      → Accepted rows
      → let (r, rows') = access_token encrypt decrypt post now rows in
        Stepped (withdraws rows) rows (use_token now) (answer_of r, rows')
  unfolding access_token resolve_loaded
  use_token-Stepped rows good = go (load_credential google_source rows) refl
    where
      Goal : Type 0
      Goal =
          let (r, rows') = access_token encrypt decrypt post now rows in
          Stepped (withdraws rows) rows (use_token now) (answer_of r, rows')

      go : (o : Result SourceCredential) → load_credential google_source rows ≡ o → Goal
      go (err e) h = rw (h, access_token) (good, resolved (λ no. cc no) refl)
      go (ok c) h =
          let (found, live) = load_credential-granted rows c h in
          rw (h, access_token, resolve_loaded)
            (elim (resolve_access_token-Resolves encrypt decrypt post now
              (record { work = c; committed = c })
              (find-Accepted google_source rows c good found)) [
                | inl (valid, (cipher, t, e₁, e₂, e₃, e₄, same)) ↦ rw (valid) (
                    replace-view false rows c _ _ good h (inl (ap (λ (x : Held). x.committed) same))
                      refl)
                | inr (stale, it) ↦ rw (stale) (Refreshed-Step rows c _ _ good h it)
              ])
