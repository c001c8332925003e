-- ===== src/Connection/Fetching.antt =====
-- Which location an ingestion job fetches, and what it has stored when it succeeds.
use review_signal.Ingestion.SyncRuns.{last_successful}
use review_signal.Connection.Discovery.{resolve_loaded}
use review_signal.Ingestion.Record.{IngestionOutcome}
use review_signal.Connection.Steps.{view-found}
use review_signal.Credentials.Repository.{find_credential}
use review_signal.Ingestion.Session.{Session, flush, rollback}
use review_signal.Connection.Machine.{load_credential-found}
use review_signal.Ingestion.Service.{Adapter, backfill, incremental, run}
use review_signal.Connection.Service.{google_source}
use review_signal.Credentials.Record.{
  connected, disconnected, invalid, SourceCredential, CredentialStatus, is_connected, disconnected,
}
use review_signal.Credentials.Tokens.{load_credential, TokenResponse}
use review_signal.Base.{
  ◌≡◌, refl, ap, ◌∙◌, inl, inr, true, Option, none, some, List, Bool-cases, Text,
  source_not_connected_error, Exception, Result, err, ok, nat_eq, list_eq, option_eq, ℕ, ◌≤◌, sym,
  ok-eq, >>=-eq-ok, ◌⊎◌, false, >>=-eq-ok, ok-eq,
}
use review_signal.Ingestion.Walk.{RunsOut}
use review_signal.Ingestion.Runs.{run-total}
use review_signal.Connection.View.{
  Connection, selected, view_parts, view, is_granted, Accepted, granted_row, absent, withdrawn,
  unselected,
}
use review_signal.Connection.Ingest.{
  Target, located, ingest_target, Mode, leave_scope, run_mode, ingest_with, ingest, Ingested,
  backfill_mode, incremental_mode,
}

-- What the state of the connection lets a job fetch.
abbrev pub Targets : Connection → Result Target → Type 0
Targets (selected account_id location_id) r =
    (c : SourceCredential) × (r
      ≡ ok (record { credential = c; account_id = account_id; location_id = location_id }))
Targets state r = (e : Exception) × (r ≡ err e) × (e.class_of ≡ source_not_connected_error)

load_credential-class :
    (rows : List SourceCredential)
    → is_granted (view rows) ≡ false
    → (e : Exception) × (load_credential google_source rows ≡ err e)
      × (e.class_of ≡ source_not_connected_error)
unfolding load_credential view
load_credential-class rows closed = go (find_credential google_source rows) refl
  where
    go :
        (o : Option SourceCredential)
        → find_credential google_source rows ≡ o
        → (e : Exception) × (load_credential google_source rows ≡ err e)
          × (e.class_of ≡ source_not_connected_error)
    go none h = rw (h, load_credential) (_, refl, refl)
    go (some d) h =
        let unlive : is_connected d.status ≡ false = sym (granted_row d) ∙ rw (h, view) at closed in
        simp (h, unlive, load_credential) (_, refl, refl)

-- A job gets as far as a token exactly where a location is chosen, and then it is that location which
-- it fetches; in each other state of the connection it raises `SourceNotConnectedError`.
pub ingest_target-Targets :
    (rows : List SourceCredential) → Accepted rows → Targets (view rows) (ingest_target rows)
unfolding ingest_target
ingest_target-Targets rows good = elim (Bool-cases (is_granted (view rows))) [
  | inl live ↦
      let (c, loaded, found) = load_credential-found rows good live in
      rw (view-found rows c found, ingest_target, loaded)
        (placed c c.status c.account_id c.location_id
          (sym (ap is_granted (view-found rows c found)) ∙ live))
  | inr closed ↦
      let (e, raised, class) = load_credential-class rows closed in
      rw (ingest_target, raised) (shut (view rows) e closed class)
]
  where
    shut :
        (s : Connection) (e : Exception)
        → is_granted s ≡ false
        → e.class_of ≡ source_not_connected_error
        → Targets s (err e)
    shut absent e closed class = (e, refl, class)
    shut withdrawn e closed class = (e, refl, class)
    shut unselected e closed class = cc closed
    shut (selected a l) e closed class = cc closed

    placed :
        (c : SourceCredential) (s : CredentialStatus) (a l : Option Text)
        → is_granted (view_parts s a l) ≡ true
        → Targets (view_parts s a l) (located c a l)
    placed c connected (some a) (some l) live = (c, refl)
    placed c connected (some a) none live = (_, refl, refl)
    placed c connected none l live = (_, refl, refl)
    placed c disconnected a l live = cc live
    placed c invalid a l live = cc live

-- Where a run of a mode stops: at the start of the source's last successful run, or nowhere.
abbrev pub watermark : Mode → Text → Session → Option ℕ
watermark backfill_mode source s = none
watermark incremental_mode source s = elim (last_successful source s.work.sync_runs) [
  | none ↦ none
  | some previous ↦ some previous.started_at
]

-- The credential that a job resolves its token from is the one that its guard let through.
pub ingest_target-loaded :
    (rows : List SourceCredential) (target : Target)
    → ingest_target rows ≡ ok target
    → load_credential google_source rows ≡ ok target.credential
unfolding ingest_target
ingest_target-loaded rows target e =
    let (c, h, k) = >>=-eq-ok (load_credential google_source rows) _ e in
    held c c.account_id c.location_id h k
  where
    held :
        (c : SourceCredential) (a l : Option Text)
        → load_credential google_source rows ≡ ok c
        → located c a l ≡ ok target
        → load_credential google_source rows ≡ ok target.credential
    held c none l h k = cc k
    held c (some a) none h k = cc k
    held c (some a) (some l) h k = h ∙ ap (λ (t : Target). ok t.credential) (ok-eq k)

module _ {A : Type 0} (encrypt decrypt : Text → Result Text)
    (refresh_grant : Text → Result TokenResponse)
    (adapter_of : (access_token account_id location_id : Text) → Adapter A) where
  pub run_mode-run :
      (mode : Mode) (adapter : Adapter A) (begun ended fuel : ℕ) (a : A) (s : Session)
      → ((e : Exception) × (run_mode encrypt decrypt refresh_grant adapter_of mode adapter begun
              ended fuel a s
            ≡ some (err e, s)))
        ⊎ (run_mode encrypt decrypt refresh_grant adapter_of mode adapter begun ended fuel a s
            ≡ run adapter (watermark mode adapter.source s) begun ended fuel a s)
  unfolding run_mode backfill incremental
  run_mode-run backfill_mode adapter begun ended fuel a s = inr refl
  run_mode-run incremental_mode adapter begun ended fuel a s = go (flush s) refl
    where
      go :
          (o : Result (Unit {0}))
          → flush s ≡ o
          → ((e : Exception) × (incremental adapter begun ended fuel a s ≡ some (err e, s)))
            ⊎ (incremental adapter begun ended fuel a s
                ≡ run adapter (watermark incremental_mode adapter.source s) begun ended fuel a s)
      go (err e) h = inl (e, rw (h, incremental) refl)
      go (ok u) h = inr (rw (h, incremental) refl)

  -- An ingestion job ends, well or badly, once the fuel covers the pages that the source has for the
  -- chosen location, whatever the token.
  pub ingest-total :
      (mode : Mode) (now begun ended n fuel : ℕ) (a : A) (rows : List SourceCredential)
      (s : Session)
      → n ≤ fuel
      → ((t : Text) (target : Target)
          → ingest_target rows ≡ ok target
          → RunsOut (adapter_of t target.account_id target.location_id) n a none)
      → (r : Ingested) × (ingest encrypt decrypt refresh_grant adapter_of mode now begun ended fuel
            a rows s
          ≡ some r)
  unfolding ingest ingest_with
  ingest-total mode now begun ended n fuel a rows s le out = go (ingest_target rows) refl
    where
      Goal : Type 0
      Goal =
          (r : Ingested) × (ingest encrypt decrypt refresh_grant adapter_of mode now begun ended
              fuel a rows s
            ≡ some r)

      mode_total :
          (adapter : Adapter A)
          → RunsOut adapter n a none
          → (r : Result IngestionOutcome × Session) × (run_mode encrypt decrypt refresh_grant
                adapter_of mode adapter begun ended fuel a s
              ≡ some r)
      mode_total adapter fin = elim (run_mode-run mode adapter begun ended fuel a s) [
        | inl (e, h) ↦ ((err e, s), h)
        | inr h ↦
            let (r, ran) =
              run-total adapter (watermark mode adapter.source s) begun ended n fuel a s le fin in
            (r, h ∙ ran)
      ]

      kept : Target → List SourceCredential
      kept target = (resolve_loaded encrypt decrypt refresh_grant now target.credential rows).1

      tokened :
          (target : Target) (r : Result Text)
          → ingest_target rows ≡ ok target
          → (resolve_loaded encrypt decrypt refresh_grant now target.credential rows).0 ≡ r
          → Goal
      tokened target (err e) h k = ((err e, kept target, rollback s), rw (ingest, h, k) refl)
      tokened target (ok t) h k =
          let (r, ran) =
            mode_total (adapter_of t target.account_id target.location_id) (out t target h) in
          let (r', s') = leave_scope r.0 r.1 in
          ((r', kept target, s'), rw (ingest, h, k, ingest_with, ran) refl)

      go : (o : Result Target) → ingest_target rows ≡ o → Goal
      go (err e) h = ((err e, rows, rollback s), rw (ingest, h) refl)
      go (ok target) h = tokened target _ h refl
