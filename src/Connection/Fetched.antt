-- ===== src/Connection/Fetched.antt =====
-- What a successful ingestion job has fetched and stored.
use review_signal.Connection.Service.{google_source}
use review_signal.Connection.Discovery.{resolve_loaded, access_token}
use review_signal.Ingestion.Record.{IngestionOutcome}
use review_signal.Credentials.Record.{SourceCredential}
use review_signal.Ingestion.Service.{Adapter, run}
use review_signal.Ingestion.Session.{Session, commit}
use review_signal.Credentials.Tokens.{TokenResponse, load_credential}
use review_signal.Base.{
  ℕ, ◌+◌, ◌≡◌, refl, sym, ap, ◌∙◌, inl, inr, Option, none, some, List, length, Text, Result, err,
  ok, ok-eq, nat_eq, list_eq, option_eq,
}
use review_signal.Ingestion.Counts.{rows}
use review_signal.Ingestion.Runs.{commit-keeps, run-Succeeded}
use review_signal.Connection.View.{
  Connection, view, Accepted, selected, absent, unselected, withdrawn,
}
use review_signal.Connection.Ingest.{
  Mode, Target, ingest_target, leave_scope, run_mode, ingest_with, ingest,
}
use review_signal.Connection.Fetching.{
  run_mode-run, Targets, ingest_target-Targets, watermark, ingest_target-loaded,
}

target-selected :
    (state : Connection) (r : Result Target) (target : Target)
    → Targets state r
    → r ≡ ok target
    → state ≡ selected target.account_id target.location_id
target-selected (selected a l) r target (c, e) h =
    let same = ok-eq (sym e ∙ h) in ap (λ (t : Target). selected t.account_id t.location_id) same
target-selected absent r target (x, e, class) h = cc (e, h)
target-selected unselected r target (x, e, class) h = cc (e, h)
target-selected withdrawn r target (x, e, class) h = cc (e, h)

leave_scope-ok :
    {B : Type 0} (r : Result B) (s s' : Session) (u : Unit {0})
    → leave_scope r s ≡ (ok u, s')
    → (b : B) × (r ≡ ok b) × (s'.work ≡ s.work) × (s'.committed ≡ s'.work)
unfolding leave_scope
leave_scope-ok (err e) s s' u h = cc h
leave_scope-ok (ok b) s s' u h =
    let same : (commit s).1 ≡ s' = ap (λ (p : Result (Unit {0}) × Session). p.1) h in
    let fine : (commit s).0 ≡ ok tt = ap (λ (p : Result (Unit {0}) × Session). p.0) h in
    (b, refl, rw (← same) (commit-keeps s).0, rw (← same) ((commit-keeps s).1 fine))

pair-eq : {A B : Type 0} (p : A × B) {a : A} {b : B} → p.0 ≡ a → p.1 ≡ b → p ≡ (a, b)
pair-eq p h k = rw (← h, ← k) refl

module _ {A : Type 0} (encrypt decrypt : Text → Result Text)
    (refresh_grant : Text → Result TokenResponse)
    (adapter_of : (access_token account_id location_id : Text) → Adapter A) where
  access_token-resolved :
      (now : ℕ) (credentials : List SourceCredential) (c : SourceCredential)
      → load_credential google_source credentials ≡ ok c
      → access_token encrypt decrypt refresh_grant now credentials
        ≡ resolve_loaded encrypt decrypt refresh_grant now c credentials
  unfolding access_token
  access_token-resolved now credentials c h = rw (h, access_token) refl

  -- A job that fetched, with the token that the credentials give, from the location that is chosen and
  -- down to its mode's watermark, and committed what it stored.
  abbrev pub Fetched :
      Mode
      → (now begun ended fuel : ℕ) → A
      → (credentials left : List SourceCredential) → Session
      → Session
      → Type 0
  Fetched mode now begun ended fuel a credentials left s s' =
      (account_id location_id token : Text) × (o : IngestionOutcome) × (s₁ : Session) × (view
          credentials
        ≡ selected account_id location_id)
      × (access_token encrypt decrypt refresh_grant now credentials ≡ (ok token, left))
      × (let adapter = adapter_of token account_id location_id in
          run adapter (watermark mode adapter.source s) begun ended fuel a s ≡ some (ok o, s₁))
      × (rows s' ≡ rows s + o.created)
      × (s'.committed ≡ s'.work)

  -- An ingestion job that succeeds has walked the source of exactly the account and the location that
  -- are chosen, with the token that resolving the stored credentials gives, and up to its mode's
  -- watermark: the start of the source's last successful run for a sync, none for a backfill; and when its session closes, all that the run counted as
  -- created is in the committed table.
  pub ingest-Fetched :
      (mode : Mode) (now begun ended fuel : ℕ) (a : A) (credentials left : List SourceCredential)
      (s s' : Session) (u : Unit {0})
      → Accepted credentials
      → ingest encrypt decrypt refresh_grant adapter_of mode now begun ended fuel a credentials s
        ≡ some (ok u, left, s')
      → Fetched mode now begun ended fuel a credentials left s s'
  unfolding ingest ingest_with
  ingest-Fetched mode now begun ended fuel a credentials left s s' u good e =
      go (ingest_target credentials) refl
    where
      Goal : Type 0
      Goal = Fetched mode now begun ended fuel a credentials left s s'

      kept : Target → List SourceCredential
      kept target =
          (resolve_loaded encrypt decrypt refresh_grant now target.credential credentials).1

      ran :
          (target : Target) (t : Text) (r : Result IngestionOutcome) (s₁ : Session)
          → ingest_target credentials ≡ ok target
          → run_mode encrypt decrypt refresh_grant adapter_of mode
              (adapter_of t target.account_id target.location_id)
              begun
              ended
              fuel
              a
              s
            ≡ some (r, s₁)
          → access_token encrypt decrypt refresh_grant now credentials ≡ (ok t, left)
          → leave_scope r s₁ ≡ (ok u, s')
          → Goal
      ran target t r s₁ h w given m =
          let (o, fine, same, sealed) = leave_scope-ok r s₁ s' u m in
          elim (run_mode-run encrypt decrypt refresh_grant adapter_of mode
            (adapter_of t target.account_id target.location_id) begun ended fuel a s) [
              | inl (x, raised) ↦ cc (sym w ∙ raised, fine)
              | inr by_run ↦
                  let adapter = adapter_of t target.account_id target.location_id in
                  let stop_at = watermark mode adapter.source s in
                  let it : run adapter stop_at begun ended fuel a s ≡ some (ok o, s₁) =
                    sym by_run ∙ (rw (fine) at w) in
                  let (a₁, a₂, a₃, a₄) =
                    run-Succeeded adapter stop_at begun ended fuel a s s₁ o it in
                  (
                    target.account_id,
                    target.location_id,
                    t,
                    o,
                    s₁,
                    target-selected (view credentials) _ target
                        (ingest_target-Targets credentials good) h,
                    given,
                    it,
                    ap (λ d. length d.reviews) same ∙ a₂,
                    sealed,
                  )
            ]

      opened :
          (target : Target) (t : Text) (w : Option (Result IngestionOutcome × Session))
          → ingest_target credentials ≡ ok target
          → (resolve_loaded encrypt decrypt refresh_grant now target.credential credentials).0
            ≡ ok t
          → run_mode encrypt decrypt refresh_grant adapter_of mode
              (adapter_of t target.account_id target.location_id)
              begun
              ended
              fuel
              a
              s
            ≡ w
          → Goal
      opened target t none h k w = cc (rw (ingest, h, k, ingest_with, w) at e)
      opened target t (some (r, s₁)) h k w =
          let it : some ((leave_scope r s₁).0, kept target, (leave_scope r s₁).1)
              ≡ some (ok u, left, s') =
            rw (ingest, h, k, ingest_with, w) at e in
          ran target t r s₁ h w
            (access_token-resolved now credentials target.credential
                (ingest_target-loaded credentials target h)
              ∙ pair-eq _ k (cc it))
            (cc it)

      tokened :
          (target : Target) (r : Result Text)
          → ingest_target credentials ≡ ok target
          → (resolve_loaded encrypt decrypt refresh_grant now target.credential credentials).0 ≡ r
          → Goal
      tokened target (err x) h k = cc (rw (ingest, h, k) at e)
      tokened target (ok t) h k = opened target t _ h k refl

      go : (r : Result Target) → ingest_target credentials ≡ r → Goal
      go (err x) h = cc (rw (ingest, h) at e)
      go (ok target) h = tokened target _ h refl
