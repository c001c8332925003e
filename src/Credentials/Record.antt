-- ===== src/Credentials/Record.antt =====
-- The `source_credentials` table of db/models.py.
use review_signal.Base.{
  ℕ, Bool, true, false, not, ◌&&◌, ◌||◌, Option, none, some, List, leb, length, Text, nat_eq,
  list_eq, option_eq,
}

-- `SOURCE_CREDENTIAL_STATUSES`
pub data CredentialStatus : Type 0 where
  connected disconnected invalid : CredentialStatus

-- `SourceCredential`; ciphertexts are texts of byte values.
pub record SourceCredential : Type 0 where
  pub id : ℕ
  pub source : Text
  pub status : CredentialStatus
  pub account_id : Option Text
  pub location_id : Option Text
  pub access_token_encrypted : Option Text
  pub refresh_token_encrypted : Option Text
  pub token_expires_at : Option ℕ
  pub scopes : List Text
  pub connected_at : Option ℕ
  pub updated_at : ℕ

abbrev pub is_connected : CredentialStatus → Bool
is_connected connected = true
is_connected status = false

abbrev fits : Option Text → Bool
fits none = true
fits (some t) = leb (length t) 255

-- The column lengths, and `ck_source_credentials_connected_has_token`.
unfoldable pub credential_accepted : SourceCredential → Bool
credential_accepted c =
    leb (length c.source) 64
    && fits c.account_id
    && fits c.location_id
    && (not (is_connected c.status)
        || elim c.refresh_token_encrypted [ none ↦ false | some t ↦ true ])
