-- ===== src/Credentials/Disconnect.antt =====
-- What connecting and disconnecting leave in the table.
use review_signal.Base.{
  ℕ, ◌≡◌, refl, Option, none, some, List, [], ◌∷◌, arith, eq_iff, eq_refl, Text, Result, ok, nat_eq,
  list_eq, option_eq,
}
use review_signal.Credentials.Record.{CredentialStatus, SourceCredential}
use review_signal.Credentials.Repository.{
  find_credential, replace_credential, flushed, disconnected_row, mark_disconnected,
}

pub find_credential-replace :
    (source : Text) (row : SourceCredential) (rows : List SourceCredential) (old : SourceCredential)
    → row.source ≡ source
    → find_credential source rows ≡ some old
    → find_credential source (replace_credential source row rows) ≡ some row
unfolding find_credential replace_credential
find_credential-replace source row [] old same h = cc
find_credential-replace source row (c ∷ rows) old same h =
    ground (arith, find_credential-replace source row rows old same, eq_refl source)

pub find_credential-source :
    (source : Text) (rows : List SourceCredential) (c : SourceCredential)
    → find_credential source rows ≡ some c
    → c.source ≡ source
unfolding find_credential
find_credential-source source [] c h = cc
find_credential-source source (r ∷ rows) c h =
    ground (arith, find_credential-source source rows c, eq_iff r.source source)

flushed-rows : {A : Type 0} (a : A) (l : List SourceCredential) → (flushed a l).1 ≡ l
unfolding flushed
flushed-rows a l = ground arith

-- What a disconnected source looks like in the table.
abbrev pub Cleared :
    Text
    → Option SourceCredential
    → List SourceCredential
    → Result (Unit {0})
    → List SourceCredential
    → Type 0
Cleared source none rows r rows' = (r ≡ ok tt) × (rows' ≡ rows)
Cleared source (some c) rows r rows' =
    (row : SourceCredential) × (find_credential source rows' ≡ some row)
    × (row.status ≡ CredentialStatus.disconnected)
    × (row.access_token_encrypted ≡ none)
    × (row.refresh_token_encrypted ≡ none)

-- Disconnecting a stored credential leaves, under the same source, a row that is `disconnected` and
-- holds neither ciphertext, whatever it was before; a source without a credential is no error and
-- changes nothing.
pub mark_disconnected-Cleared :
    (source : Text) (now : ℕ) (rows : List SourceCredential)
    → let (r, rows') = mark_disconnected source now rows in
      Cleared source (find_credential source rows) rows r rows'
unfolding mark_disconnected disconnected_row
mark_disconnected-Cleared source now rows = go (find_credential source rows) refl
  where
    go :
        (o : Option SourceCredential)
        → find_credential source rows ≡ o
        → Cleared source o rows
            (mark_disconnected source now rows).0
            (mark_disconnected source now rows).1
    go none h = rw (h, mark_disconnected) (refl, refl)
    go (some c) h =
        let row = disconnected_row now c in
        rw (h, mark_disconnected, flushed-rows tt (replace_credential source row rows))
          (
            row,
            find_credential-replace source row rows c (find_credential-source source rows c h) h,
            refl,
            refl,
            refl,
          )
