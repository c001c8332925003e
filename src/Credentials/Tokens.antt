-- ===== src/Credentials/Tokens.antt =====
-- services/google_token.py: a usable access token for the worker. The cipher, which may raise, and
-- the answer of the token endpoint are parameters; `err` of a request is an `httpx.RequestError`.
use review_signal.Base.{
  ℕ, ◌+◌, ◌*◌, Bool, false, ◌||◌, Option, none, some, List, [], ◌++◌, ltb, leb, if◌then◌else◌, ◌==◌,
  Text, codes, decimal_text, source_fetch_error, source_not_connected_error, integrity_error,
  external, Result, ok, err, raise, nat_eq, list_eq, option_eq,
}
use review_signal.Google.Mapping.{nonempty}
use review_signal.Credentials.Record.{
  SourceCredential, credential_accepted, CredentialStatus, is_connected,
}
use review_signal.Credentials.Repository.{find_credential}

-- `load_credential`
unfoldable pub load_credential : Text → List SourceCredential → Result SourceCredential
load_credential source rows = elim (find_credential source rows) [
  | none ↦
      raise source_not_connected_error
        (codes "No connected credential for source '" ++ (source ++ codes "'."))
  | some c ↦
      if is_connected c.status
      then (elim c.refresh_token_encrypted [
        | none ↦
            raise source_not_connected_error
              (codes "Credential for '" ++ (source ++ codes "' has no refresh token."))
        | some t ↦ ok c
      ])
      else raise source_not_connected_error
          (codes "No connected credential for source '" ++ (source ++ codes "'."))
]

-- The credential's object in the session, and its row as it was last committed.
pub record Held : Type 0 where
  pub work : SourceCredential
  pub committed : SourceCredential

unfoldable pub commit_credential : Held → Result (Unit {0}) × Held
commit_credential h =
    if credential_accepted h.work
    then (ok tt, record h { committed = h.work })
    else (raise integrity_error (codes "row violates a constraint"), h)

-- The fields that are read of the token endpoint's body.
pub record TokenBody : Type 0 where
  pub access_token : Option Text
  pub expires_in : Option ℕ

-- A response; decoding its body may raise.
pub record TokenResponse : Type 0 where
  pub status_code : ℕ
  pub json : Result TokenBody

-- `EXPIRY_SKEW`, in microseconds.
abbrev pub expiry_skew : ℕ
expiry_skew = 300000000

-- `_still_valid`: `expires_at - EXPIRY_SKEW > now`.
unfoldable pub still_valid : SourceCredential → ℕ → Bool
still_valid c now = elim c.token_expires_at [
  | none ↦ false
  | some expires_at ↦ ltb (now + expiry_skew) expires_at
]

-- `int(body.get("expires_in", 3600))`
abbrev pub lifetime : TokenBody → ℕ
lifetime body = elim body.expires_in [ none ↦ 3600 | some n ↦ n ]

abbrev pub then_token : Result (Unit {0}) → Text → Result Text
then_token (ok u) token = ok token
then_token (err e) token = err e

module _ (encrypt decrypt : Text → Result Text) (post : Text → Result TokenResponse) (now : ℕ) where
  -- The end of `_refresh`, on the access token's ciphertext.
  unfoldable pub store_token : Text → ℕ → Text → Held → Result Text × Held
  store_token token seconds cipher h =
      let (r, h') = commit_credential (record h {
        work = record h.work {
          access_token_encrypted = some cipher;
          token_expires_at = some (now + seconds * 1000000);
          updated_at = now;
        };
      }) in
      (then_token r token, h')

  -- `_refresh` behind `response.json()`.
  unfoldable pub take_token : TokenBody → Held → Result Text × Held
  take_token body h = elim (nonempty body.access_token) [
    | none ↦
        (raise source_fetch_error (codes "Google's token response contained no access_token."), h)
    | some token ↦ elim (encrypt token) [
      | err e ↦ (err e, h)
      | ok cipher ↦ store_token token (lifetime body) cipher h
    ]
  ]

  -- The 400 and 401 branch of `_refresh`.
  unfoldable pub reject_grant : Held → Result Text × Held
  reject_grant h =
      let (r, h') =
        commit_credential
          (record h { work = record h.work { status = CredentialStatus.invalid } }) in
      (
        elim r [
          | err e ↦ err e
          | ok u ↦
              raise source_not_connected_error
                (codes "Google rejected the refresh token; the connection must be re-authorized.")
        ],
        h',
      )

  -- `_refresh` behind the request.
  unfoldable pub take_response : TokenResponse → Held → Result Text × Held
  unfolding decimal_text
  take_response response h =
      if response.status_code == 400 || response.status_code == 401
      then reject_grant h
      else if leb 300 response.status_code
      then (
        raise source_fetch_error (
            codes "Google token endpoint returned HTTP "
            ++ (decimal_text response.status_code ++ codes ".")),
        h,
      )
      else (elim response.json [ err e ↦ (err e, h) | ok body ↦ take_token body h ])

  -- `_refresh`
  unfoldable pub refresh : Held → Result Text × Held
  refresh h = elim h.work.refresh_token_encrypted [
    | none ↦ (raise (external (codes "AssertionError")) [], h)
    | some cipher ↦ elim (decrypt cipher) [
      | err e ↦ (err e, h)
      | ok refresh_token ↦ elim (post refresh_token) [
        | err e ↦ (
          raise source_fetch_error (codes "Could not reach Google's token endpoint: " ++ e.message),
          h,
        )
        | ok response ↦ take_response response h
      ]
    ]
  ]

  -- `resolve_access_token`
  unfoldable pub resolve_access_token : Held → Result Text × Held
  resolve_access_token h = elim h.work.access_token_encrypted [
    | none ↦ refresh h
    | some cipher ↦ if still_valid h.work now then (decrypt cipher, h) else refresh h
  ]
