-- ===== src/Credentials/Examples.antt =====
-- A stored Google credential that is disconnected, and whose token is resolved.
use review_signal.Base.{
  ◌≡◌, refl, ◌⊎◌, true, none, some, [], ◌∷◌, drop, Text, codes, value_error, Result, ok, raise,
  nat_eq, list_eq, option_eq,
}
use review_signal.Credentials.Record.{SourceCredential, credential_accepted, CredentialStatus}
use review_signal.Credentials.Repository.{find_credential, mark_disconnected}
use review_signal.Credentials.Tokens.{
  Held, commit_credential, TokenResponse, still_valid, reject_grant, take_response, refresh,
  resolve_access_token,
}
use review_signal.Credentials.Disconnect.{Cleared, mark_disconnected-Cleared}
use review_signal.Credentials.Resolve.{Renewed, Reused, is_reusable, resolve_access_token-Resolves}

abbrev google : SourceCredential
google = record {
  id = 1;
  source = codes "google";
  status = CredentialStatus.connected;
  account_id = some (codes "a");
  location_id = none;
  access_token_encrypted = some (codes "x");
  refresh_token_encrypted = some (codes "y");
  token_expires_at = some 1000;
  scopes = [];
  connected_at = some 5;
  updated_at = 5;
}

mark_disconnected-Cleared_example :
    let (r, rows') = mark_disconnected (codes "google") 9 (google ∷ []) in
    Cleared (codes "google") (find_credential (codes "google") (google ∷ [])) (google ∷ []) r rows'
mark_disconnected-Cleared_example = mark_disconnected-Cleared (codes "google") 9 (google ∷ [])

-- A cipher that only marks a text, and an endpoint that withdraws the grant.
abbrev seal : Text → Result Text
seal t = ok (b'#' ∷ t)

abbrev open_sealed : Text → Result Text
open_sealed t = ok (drop 1 t)

abbrev withdrawn : Text → Result TokenResponse
withdrawn t = ok (record { status_code = 400; json = raise value_error [] })

abbrev held : Held
held = record { work = google; committed = google }

-- A withdrawn grant is marked `invalid` in the table.
withdrawn_grant :
    (resolve_access_token seal open_sealed withdrawn 2000 held).1.committed.status
    ≡ CredentialStatus.invalid
unfolding resolve_access_token still_valid refresh take_response reject_grant commit_credential
    credential_accepted
withdrawn_grant = refl

google_accepted : credential_accepted google ≡ true
unfolding credential_accepted
google_accepted = refl

resolve_access_token-Resolves_example :
    let (r, h') = resolve_access_token seal open_sealed withdrawn 2000 held in
    (is_reusable seal open_sealed withdrawn 2000 held.work ≡ true)
      × Reused seal open_sealed withdrawn 2000 held r h'
    ⊎ Renewed seal open_sealed withdrawn 2000 held r h'
resolve_access_token-Resolves_example =
    resolve_access_token-Resolves seal open_sealed withdrawn 2000 held google_accepted
