-- ===== src/Connection/Service.antt =====
-- `GoogleConnectionService` of services/google_connection.py, on the committed rows of its tables: a
-- request that raises leaves them as they were. The OAuth exchange is in Connection/Oauth, discovery
-- in Connection/Discovery.
use review_signal.Base.{
  ℕ, Bool, false, Option, none, some, List, if◌then◌else◌, Text, codes, google_not_connected_error,
  Result, err, ok, raise, nat_eq, list_eq, option_eq,
}
use review_signal.Ingestion.Record.{SyncRun}
use review_signal.Ingestion.SyncRuns.{newest}
use review_signal.Credentials.Record.{CredentialStatus, SourceCredential, is_connected}
use review_signal.Credentials.Repository.{find_credential, set_location, mark_disconnected}

-- `GoogleConnectionService.SOURCE`
abbrev pub google_source : Text
google_source = codes "google"

-- `GoogleStatusPayload`
pub record GoogleStatusPayload : Type 0 where
  pub connected : Bool
  pub status : CredentialStatus
  pub account_id : Option Text
  pub location_id : Option Text
  pub connected_at : Option ℕ
  pub last_sync : Option ℕ

-- `SystemRepository.latest_sync_run`
abbrev pub latest_sync_run : List SyncRun → Option SyncRun
latest_sync_run runs = newest runs

-- `status`
unfoldable pub status_of : List SourceCredential → List SyncRun → GoogleStatusPayload
status_of rows runs =
    let last_sync : Option ℕ = elim (latest_sync_run runs) [
      | none ↦ none
      | some sync_run ↦ some sync_run.started_at
    ] in
    elim (find_credential google_source rows) [
      | none ↦ record {
        connected = false;
        status = CredentialStatus.disconnected;
        account_id = none;
        location_id = none;
        connected_at = none;
        last_sync = last_sync;
      }
      | some credential ↦ record {
        connected = is_connected credential.status;
        status = credential.status;
        account_id = credential.account_id;
        location_id = credential.location_id;
        connected_at = credential.connected_at;
        last_sync = last_sync;
      }
    ]

-- `ensure_connected`
unfoldable pub ensure_connected : List SourceCredential → Result (Unit {0})
ensure_connected rows =
    let refused : Result (Unit {0}) =
      raise google_not_connected_error
        (codes "Google is not connected; connect it before syncing.") in
    elim (find_credential google_source rows) [
      | none ↦ refused
      | some credential ↦ if is_connected credential.status then ok tt else refused
    ]

-- The `commit` behind a repository's method, and the rollback where that raised.
unfoldable pub committed {ℓ} :
    {A : Type ℓ}
    → List SourceCredential
    → Result A × List SourceCredential
    → Result (Unit {0}) × List SourceCredential
committed rows (err e, written) = (err e, rows)
committed rows (ok a, written) = (ok tt, written)

-- `select_location`, up to the `status` that it returns.
unfoldable pub select_location :
    (account_id location_id : Text)
    → ℕ
    → List SourceCredential
    → Result (Unit {0}) × List SourceCredential
select_location account_id location_id now rows = elim (ensure_connected rows) [
  | err e ↦ (err e, rows)
  | ok u ↦ committed rows (set_location google_source account_id location_id now rows)
]

-- `disconnect`
unfoldable pub disconnect : ℕ → List SourceCredential → Result (Unit {0}) × List SourceCredential
disconnect now rows = committed rows (mark_disconnected google_source now rows)
