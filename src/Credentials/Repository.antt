-- ===== src/Credentials/Repository.antt =====
-- `CredentialRepository` of repositories/credentials.py over the rows of its table. Each method ends
-- with a flush, when the database checks its rows.
use review_signal.Base.{
  ℕ, Bool, Option, none, some, List, [], ◌∷◌, ◌++◌, if◌then◌else◌, all, find_first, ◌==◌, Text,
  codes, integrity_error, Result, ok, raise, nat_eq, list_eq, option_eq,
}
use review_signal.Credentials.Record.{SourceCredential, credential_accepted, CredentialStatus}

abbrev pub is_of : Text → SourceCredential → Bool
is_of source c = c.source == source

-- `get`
unfoldable pub find_credential : Text → List SourceCredential → Option SourceCredential
find_credential source rows = find_first (is_of source) rows

-- A change to the object that the query returned.
unfoldable pub replace_credential :
    Text → SourceCredential → List SourceCredential → List SourceCredential
replace_credential source row [] = []
replace_credential source row (c ∷ cs) =
    if is_of source c then row ∷ cs else c ∷ replace_credential source row cs

-- The flush at the end of a method, and what the method then returns.
unfoldable pub flushed {ℓ} :
    {A : Type ℓ} → A → List SourceCredential → Result A × List SourceCredential
flushed a rows =
    if all credential_accepted rows
    then (ok a, rows)
    else (raise integrity_error (codes "row violates a constraint"), rows)

-- The arguments of `upsert` behind the source.
pub record Grant : Type 0 where
  pub refresh_token_encrypted : Text
  pub access_token_encrypted : Option Text
  pub token_expires_at : Option ℕ
  pub account_id : Option Text
  pub location_id : Option Text
  pub scopes : List Text

-- The assignments of `upsert`.
unfoldable pub granted : Grant → ℕ → SourceCredential → SourceCredential
granted g now c = record c {
  status = CredentialStatus.connected;
  account_id = g.account_id;
  location_id = g.location_id;
  access_token_encrypted = g.access_token_encrypted;
  refresh_token_encrypted = some g.refresh_token_encrypted;
  token_expires_at = g.token_expires_at;
  scopes = g.scopes;
  connected_at = some now;
  updated_at = now;
}

-- `SourceCredential(source=source)` with the server's defaults.
unfoldable pub new_credential : Text → (id now : ℕ) → SourceCredential
new_credential source id now = record {
  id = id;
  source = source;
  status = CredentialStatus.disconnected;
  account_id = none;
  location_id = none;
  access_token_encrypted = none;
  refresh_token_encrypted = none;
  token_expires_at = none;
  scopes = [];
  connected_at = none;
  updated_at = now;
}

-- `upsert`, with the id that the database would give a new row.
unfoldable pub upsert_credential :
    Text
    → Grant
    → (id now : ℕ) → List SourceCredential
    → Result SourceCredential × List SourceCredential
upsert_credential source g id now rows = elim (find_credential source rows) [
  | none ↦ let row = granted g now (new_credential source id now) in flushed row (rows ++ row ∷ [])
  | some c ↦ let row = granted g now c in flushed row (replace_credential source row rows)
]

-- `set_location`
unfoldable pub set_location :
    Text
    → (account_id location_id : Text) → ℕ
    → List SourceCredential
    → Result (Option SourceCredential) × List SourceCredential
set_location source account_id location_id now rows = elim (find_credential source rows) [
  | none ↦ (ok none, rows)
  | some c ↦
      let row = record c {
        account_id = some account_id;
        location_id = some location_id;
        updated_at = now;
      } in
      flushed (some row) (replace_credential source row rows)
]

-- The assignments of `mark_disconnected`.
unfoldable pub disconnected_row : ℕ → SourceCredential → SourceCredential
disconnected_row now c = record c {
  status = CredentialStatus.disconnected;
  access_token_encrypted = none;
  refresh_token_encrypted = none;
  updated_at = now;
}

-- `mark_disconnected`
unfoldable pub mark_disconnected :
    Text → ℕ → List SourceCredential → Result (Unit {0}) × List SourceCredential
mark_disconnected source now rows = elim (find_credential source rows) [
  | none ↦ (ok tt, rows)
  | some c ↦ flushed tt (replace_credential source (disconnected_row now c) rows)
]
