-- ===== src/Connection/Ingest.antt =====
-- workers/reviewsignal_worker/jobs/ingest.py: the handlers of the two ingestion jobs, inside the
-- worker's session of workers/reviewsignal_worker/db.py.
use review_signal.Base.{
  ℕ, Option, none, some, List, Text, codes, source_not_connected_error, Result, err, ok, raise,
  ◌>>=◌, nat_eq, list_eq, option_eq,
}
use review_signal.Ingestion.Record.{IngestionOutcome}
use review_signal.Ingestion.Session.{Session, commit, rollback}
use review_signal.Ingestion.Service.{Adapter, backfill, incremental}
use review_signal.Credentials.Record.{SourceCredential}
use review_signal.Credentials.Tokens.{TokenResponse, load_credential}
use review_signal.Connection.Service.{google_source}
use review_signal.Connection.Discovery.{resolve_loaded}

-- The `mode` of `_ingest`.
pub data Mode : Type 0 where
  backfill_mode incremental_mode : Mode

-- The credential and the two ids that a job fetches with.
pub record Target : Type 0 where
  pub credential : SourceCredential
  pub account_id : Text
  pub location_id : Text

abbrev no_location : Result Target
no_location =
    raise source_not_connected_error
      (codes "The Google connection has no account/location selected yet.")

-- The test of both ids.
abbrev pub located : SourceCredential → Option Text → Option Text → Result Target
located c (some account_id) (some location_id) =
    ok (record { credential = c; account_id = account_id; location_id = location_id })
located c (some account_id) none = no_location
located c none location_id = no_location

-- `_ingest` up to the token.
unfoldable pub ingest_target : List SourceCredential → Result Target
unfolding load_credential
ingest_target rows =
    load_credential google_source rows >>= λ c. located c c.account_id c.location_id

-- The end of `session_scope`: the last commit, or the rollback of what raised.
unfoldable pub leave_scope : {A : Type 0} → Result A → Session → Result (Unit {0}) × Session
leave_scope (ok a) s = commit s
leave_scope (err e) s = (err e, rollback s)

-- What an ingestion job leaves: how it ended, the credentials, the session.
abbrev pub Ingested : Type 0
Ingested = Result (Unit {0}) × List SourceCredential × Session

module _ {A : Type 0} (encrypt decrypt : Text → Result Text)
    (refresh_grant : Text → Result TokenResponse)
    (adapter_of : (access_token account_id location_id : Text) → Adapter A) where
  -- The service's method for a mode.
  unfoldable pub run_mode :
      Mode
      → Adapter A
      → (begun ended fuel : ℕ) → A
      → Session
      → Option (Result IngestionOutcome × Session)
  unfolding backfill incremental
  run_mode backfill_mode adapter begun ended fuel a s = backfill adapter begun ended fuel a s
  run_mode incremental_mode adapter begun ended fuel a s = incremental adapter begun ended fuel a s

  -- The service's run with the token, and the end of the session's scope.
  unfoldable pub ingest_with :
      Mode
      → Target
      → Text
      → (begun ended fuel : ℕ) → A
      → Session
      → Option (Result (Unit {0}) × Session)
  unfolding run_mode leave_scope
  ingest_with mode target token begun ended fuel a s =
      elim (run_mode mode (adapter_of token target.account_id target.location_id) begun ended fuel a
        s) [ none ↦ none | some (r, s') ↦ some (leave_scope r s') ]

  -- `_ingest`: `none` when the fuel for the source's pages runs out.
  unfoldable pub ingest :
      Mode → (now begun ended fuel : ℕ) → A → List SourceCredential → Session → Option Ingested
  unfolding ingest_target resolve_loaded ingest_with
  ingest mode now begun ended fuel a rows s = elim (ingest_target rows) [
    | err e ↦ some (err e, rows, rollback s)
    | ok target ↦
        let (token, rows') =
          resolve_loaded encrypt decrypt refresh_grant now target.credential rows in
        elim token [
          | err e ↦ some (err e, rows', rollback s)
          | ok t ↦ elim (ingest_with mode target t begun ended fuel a s) [
            | none ↦ none
            | some (r, s') ↦ some (r, rows', s')
          ]
        ]
  ]
