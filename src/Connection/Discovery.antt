-- ===== src/Connection/Discovery.antt =====
-- Discovery in services/google_connection.py: the stored grant's token, the profile client's calls
-- with it, and the errors of both in the API's terms.
use review_signal.Base.{
  ℕ, Option, List, map, Text, source_fetch_error, source_not_connected_error,
  google_not_connected_error, google_api_error, Result, err, ok, raise, ◌>>=◌, nat_eq, list_eq,
  option_eq,
}
use review_signal.Google.Profile.{DiscoveredAccount, DiscoveredLocation, ProfileEnvelope}
use review_signal.Google.Profile
use review_signal.Credentials.Record.{SourceCredential}
use review_signal.Credentials.Repository.{replace_credential}
use review_signal.Credentials.Tokens.{TokenResponse, load_credential, resolve_access_token}
use review_signal.Connection.Service.{google_source, ensure_connected}

-- `_discover`: the errors of the integration layer in the API's terms.
unfoldable pub discover {ℓ} : {A : Type ℓ} → Result A → Result A
discover (ok a) = ok a
discover (err e) = elim e.class_of [
  | source_not_connected_error ↦ raise google_not_connected_error e.message
  | source_fetch_error ↦ raise google_api_error e.message
  | _ ↦ err e
]

-- `GoogleAccountPayload` and `GoogleLocationPayload`.
pub record GoogleAccountPayload : Type 0 where
  pub account_id : Text
  pub name : Text

pub record GoogleLocationPayload : Type 0 where
  pub location_id : Text
  pub title : Text

abbrev pub account_payload : DiscoveredAccount → GoogleAccountPayload
account_payload account = record { account_id = account.account_id; name = account.name }

abbrev pub location_payload : DiscoveredLocation → GoogleLocationPayload
location_payload location = record { location_id = location.location_id; title = location.title }

module _ (encrypt decrypt : Text → Result Text) (post : Text → Result TokenResponse) (now : ℕ) where
  -- `resolve_access_token` on a credential that a session has loaded, and what it leaves committed.
  unfoldable pub resolve_loaded :
      SourceCredential → List SourceCredential → Result Text × List SourceCredential
  unfolding resolve_access_token
  resolve_loaded credential rows =
      let (token, held) =
        resolve_access_token encrypt decrypt post now
          (record { work = credential; committed = credential }) in
      (token, replace_credential google_source held.committed rows)

  -- `_access_token`
  unfoldable pub access_token : List SourceCredential → Result Text × List SourceCredential
  unfolding resolve_loaded load_credential
  access_token rows = elim (load_credential google_source rows) [
    | err e ↦ (err e, rows)
    | ok credential ↦ resolve_loaded credential rows
  ]

  -- `list_accounts`, by what Google answers to a token's requests.
  unfoldable pub list_accounts :
      (Text → ℕ → Option Text → Result ProfileEnvelope)
      → List SourceCredential
      → Result (List GoogleAccountPayload) × List SourceCredential
  unfolding ensure_connected access_token discover
  list_accounts get rows = elim (ensure_connected rows) [
    | err e ↦ (err e, rows)
    | ok u ↦
        let (token, rows') = access_token rows in
        (
          (discover (token >>= λ t. Profile.list_accounts (get t)) >>= λ accounts.
              ok (map account_payload accounts)),
          rows',
        )
  ]

  -- `list_locations`
  unfoldable pub list_locations :
      (Text → Text → ℕ → Option Text → Result ProfileEnvelope)
      → Text
      → List SourceCredential
      → Result (List GoogleLocationPayload) × List SourceCredential
  unfolding ensure_connected access_token discover
  list_locations get account_id rows = elim (ensure_connected rows) [
    | err e ↦ (err e, rows)
    | ok u ↦
        let (token, rows') = access_token rows in
        (
          (discover (token >>= λ t. Profile.list_locations (get t account_id)) >>= λ locations.
              ok (map location_payload locations)),
          rows',
        )
  ]
