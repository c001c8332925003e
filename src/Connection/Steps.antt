-- ===== src/Connection/Steps.antt =====
-- Each request on the connection is a step of its abstract state.
use review_signal.Api.Settings.{Settings}
use review_signal.Google.Mapping.{nonempty}
use review_signal.Base.{
  ℕ, ◌≡◌, refl, ◌∙◌, ◌⊎◌, true, false, ◌&&◌, none, some, List, Text, source_not_connected_error,
  Exception, Result, err, ok, nat_eq, list_eq, option_eq, sym, ap, Bool, Option, [], ◌∷◌, ◌++◌, ltb,
  leb, codes, >>=-eq-ok, ok-eq,
}
use review_signal.Credentials.Record.{SourceCredential, credential_accepted}
use review_signal.Credentials.Repository.{
  Grant, granted, find_credential, replace_credential, upsert_credential, new_credential,
}
use review_signal.Credentials.Disconnect.{find_credential-replace, find_credential-source}
use review_signal.Connection.Service.{google_source, committed}
use review_signal.Connection.Oauth.{
  TokenRequest, GrantResponse, GrantBody, complete, granted_by, grant_of, encrypt_option,
}
use review_signal.Connection.Routes.{is_resource_id}
use review_signal.Connection.View.{
  Connection, absent, unselected, withdrawn, selected, view_row, view, is_granted, Accepted,
  replace-Accepted, append-Accepted, flushed-Accepted, find-append,
}

-- What may be asked of the connection: the exchange of a code, the choice of a location, its end, and
-- an access token for a job or for discovery. Ids and times are the database's and the clock's.
pub data Request : Type 0 where
  exchange : (code : Text) (id now stored : ℕ) → Request
  choose : (account_id location_id : Text) (now : ℕ) → Request
  leave : (now : ℕ) → Request
  use_token : (now : ℕ) → Request

-- The steps of the abstract state, with the answer that each gives, by whether the request needs the
-- grant itself and Google rejects it.
pub data Step (refused : Bool)
    : Connection → Request → Result (Unit {0}) → Connection → Type 0 where
  granted_anew :
      {s : Connection} {code : Text} {id now stored : ℕ}
      → Step refused s (exchange code id now stored) (ok tt) unselected
  not_granted :
      {s : Connection} {code : Text} {id now stored : ℕ} {e : Exception}
      → Step refused s (exchange code id now stored) (err e) s
  chosen :
      {s : Connection} {a l : Text} {now : ℕ}
      → is_granted s ≡ true
      → Step refused s (choose a l now) (ok tt) (selected a l)
  not_chosen :
      {s : Connection} {a l : Text} {now : ℕ} {e : Exception}
      → (is_granted s ≡ false) ⊎ (is_resource_id a && is_resource_id l ≡ false)
      → Step refused s (choose a l now) (err e) s
  left : {s : Connection} {now : ℕ} → Step refused s (leave now) (ok tt) absent
  resolved :
      {s : Connection} {now : ℕ} {r : Result (Unit {0})}
      → (r ≡ ok tt → is_granted s ≡ true)
      → refused ≡ false
      → Step refused s (use_token now) r s
  rejected :
      {s : Connection} {now : ℕ} {e : Exception}
      → is_granted s ≡ true
      → e.class_of ≡ source_not_connected_error
      → refused ≡ true
      → Step refused s (use_token now) (err e) withdrawn

pub view-found :
    (rows : List SourceCredential) (c : SourceCredential)
    → find_credential google_source rows ≡ some c
    → view rows ≡ view_row c
unfolding view
view-found rows c h = rw (h) refl

pub view-none :
    (rows : List SourceCredential) → find_credential google_source rows ≡ none → view rows ≡ absent
unfolding view
view-none rows h = rw (h) refl

-- The row of the source is written over: the table stays sound, and the view is the new row's.
pub view-replace :
    (rows : List SourceCredential) (old row : SourceCredential)
    → Accepted rows
    → find_credential google_source rows ≡ some old
    → row.source ≡ old.source
    → credential_accepted row ≡ true
    → Accepted (replace_credential google_source row rows)
      × (view (replace_credential google_source row rows) ≡ view_row row)
view-replace rows old row good h same fit =
    let own = same ∙ find_credential-source google_source rows old h in
    (
      replace-Accepted google_source row rows good fit,
      view-found (replace_credential google_source row rows) row
          (find_credential-replace google_source row rows old own h),
    )

-- The constraints of a row whose ids are not set.
granted-accepted :
    (g : Grant) (now : ℕ) (c : SourceCredential)
    → c.source ≡ google_source
    → g.account_id ≡ none
    → g.location_id ≡ none
    → credential_accepted (granted g now c) ≡ true
unfolding credential_accepted granted
granted-accepted g now c h a l = simp (h, a, l) refl

granted-view :
    (g : Grant) (now : ℕ) (c : SourceCredential)
    → g.account_id ≡ none
    → view_row (granted g now c) ≡ unselected
unfolding granted
granted-view g now c a = simp (a) refl

-- What a request leaves: a sound table, and a step of the view.
abbrev pub Stepped :
    (refused : Bool)
    → List SourceCredential
    → Request
    → Result (Unit {0}) × List SourceCredential
    → Type 0
Stepped refused rows request (r, rows') =
    Accepted rows' × Step refused (view rows) request r (view rows')

grant_of-unplaced :
    (payload : GrantBody) (encrypt : Text → Result Text) (now : ℕ) (g : Grant)
    → grant_of encrypt now payload ≡ ok g
    → (g.account_id ≡ none) × (g.location_id ≡ none)
unfolding grant_of
grant_of-unplaced payload encrypt now g e = go (nonempty payload.refresh_token) refl
  where
    go :
        (o : Option Text)
        → nonempty payload.refresh_token ≡ o
        → (g.account_id ≡ none) × (g.location_id ≡ none)
    go none h = cc (rw (h, grant_of) at e)
    go (some t) h =
        let (c, e₁, e₂) = >>=-eq-ok (encrypt t) _ (rw (h, grant_of) at e) in
        let (a, e₃, e₄) = >>=-eq-ok (encrypt_option encrypt (nonempty payload.access_token)) _ e₂ in
        let same = ok-eq e₄ in
        (ap (λ (x : Grant). x.account_id) (sym same), ap (λ (x : Grant). x.location_id) (sym same))

granted_by-unplaced :
    (encrypt : Text → Result Text) (now : ℕ) (answer : Result GrantResponse) (g : Grant)
    → granted_by encrypt now answer ≡ ok g
    → (g.account_id ≡ none) × (g.location_id ≡ none)
unfolding granted_by
granted_by-unplaced encrypt now (err x) g e = cc e
granted_by-unplaced encrypt now (ok response) g e =
    go (leb 200 response.status_code && ltb response.status_code 300) refl
  where
    go :
        (b : Bool)
        → (leb 200 response.status_code && ltb response.status_code 300) ≡ b
        → (g.account_id ≡ none) × (g.location_id ≡ none)
    go false h = cc (rw (h, granted_by) at e)
    go true h =
        let (payload, e₁, e₂) = >>=-eq-ok response.json _ (rw (h, granted_by) at e) in
        grant_of-unplaced payload encrypt now g e₂

-- A grant without a location is stored, and seen.
upsert-view :
    (rows : List SourceCredential) (g : Grant) (id stored : ℕ)
    → Accepted rows
    → (g.account_id ≡ none) × (g.location_id ≡ none)
    → let (r, rows') = committed rows (upsert_credential google_source g id stored rows) in
      (r ≡ ok tt) × Accepted rows' × (view rows' ≡ unselected)
unfolding committed upsert_credential new_credential granted
upsert-view rows g id stored good bare = go (find_credential google_source rows) refl
  where
    Goal : Type 0
    Goal =
        let (r, rows') = committed rows (upsert_credential google_source g id stored rows) in
        (r ≡ ok tt) × Accepted rows' × (view rows' ≡ unselected)

    go : (o : Option SourceCredential) → find_credential google_source rows ≡ o → Goal
    go none h =
        let row = granted g stored (new_credential google_source id stored) in
        let own : (new_credential google_source id stored).source ≡ google_source = refl in
        let fit =
          granted-accepted g stored (new_credential google_source id stored) own bare.0 bare.1 in
        let rows' = rows ++ row ∷ [] in
        let sound = append-Accepted rows row good fit in
        rw (h, upsert_credential, flushed-Accepted row rows' sound, committed)
          (
            refl,
            sound,
            view-found rows' row (find-append google_source rows row own h)
                ∙ granted-view g stored (new_credential google_source id stored) bare.0,
          )
    go (some c) h =
        let row = granted g stored c in
        let own = find_credential-source google_source rows c h in
        let fit = granted-accepted g stored c own bare.0 bare.1 in
        let (sound, seen) = view-replace rows c row good h refl fit in
        rw
          (
            h,
            upsert_credential,
            flushed-Accepted row (replace_credential google_source row rows) sound,
            committed,
          )
          (refl, sound, seen ∙ granted-view g stored c bare.0)

module _ (encrypt : Text → Result Text) (post : TokenRequest → Result GrantResponse)
    (settings : Settings) where
  pub exchange-Stepped :
      (refused : Bool) (code : Text) (id now stored : ℕ) (rows : List SourceCredential)
      → Accepted rows
      → Stepped refused rows
          (exchange code id now stored)
          (complete encrypt post settings code id now stored rows)
  unfolding complete
  exchange-Stepped refused code id now stored rows good = go _ refl
    where
      answer : Result GrantResponse
      answer = post (record {
        code = code;
        client_id = settings.google_client_id;
        client_secret = settings.google_client_secret;
        redirect_uri = settings.google_redirect_uri;
        grant_type = codes "authorization_code";
      })

      go :
          (o : Result Grant)
          → granted_by encrypt now answer ≡ o
          → Stepped refused rows
              (exchange code id now stored)
              (complete encrypt post settings code id now stored rows)
      go (err e) h = rw (h, complete) (good, not_granted)
      go (ok g) h =
          let (fine, sound, seen) =
            upsert-view rows g id stored good (granted_by-unplaced encrypt now answer g h) in
          rw (h, complete, fine, seen) (sound, granted_anew)
