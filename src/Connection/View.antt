-- ===== src/Connection/View.antt =====
-- The abstract state of the Google connection, and the row that stands for it.
use review_signal.Base.{
  ◌≡◌, refl, Bool, true, false, Option, none, some, List, [], ◌∷◌, ◌++◌, arith, all, eq_iff, Text,
  ok, nat_eq, list_eq, option_eq,
}
use review_signal.Credentials.Record.{
  connected, disconnected, invalid, CredentialStatus, SourceCredential, credential_accepted,
  is_connected,
}
use review_signal.Credentials.Repository.{find_credential, replace_credential, flushed}
use review_signal.Connection.Service.{google_source}

-- What the rest of the program can tell of the connection: no usable grant, a grant without a chosen
-- location, a grant with one, or a grant that Google has withdrawn.
pub data Connection : Type 0 where
  absent unselected withdrawn : Connection
  selected : (account_id location_id : Text) → Connection

abbrev both : Option Text → Option Text → Connection
both (some account_id) (some location_id) = selected account_id location_id
both (some account_id) none = unselected
both none location_id = unselected

abbrev pub view_parts : CredentialStatus → Option Text → Option Text → Connection
view_parts connected account_id location_id = both account_id location_id
view_parts disconnected account_id location_id = absent
view_parts invalid account_id location_id = withdrawn

abbrev pub view_row : SourceCredential → Connection
view_row c = view_parts c.status c.account_id c.location_id

abbrev pub view_of : Option SourceCredential → Connection
view_of none = absent
view_of (some c) = view_row c

unfoldable pub view : List SourceCredential → Connection
view rows = view_of (find_credential google_source rows)

-- The states with a grant that the program may use.
abbrev pub is_granted : Connection → Bool
is_granted unselected = true
is_granted (selected account_id location_id) = true
is_granted state = false

pub granted_row : (c : SourceCredential) → is_granted (view_row c) ≡ is_connected c.status
granted_row c = go c.status c.account_id c.location_id
  where
    go : (s : CredentialStatus) (a l : Option Text) → is_granted (view_parts s a l) ≡ is_connected s
    go connected none l = refl
    go connected (some a) none = refl
    go connected (some a) (some l) = refl
    go disconnected a l = refl
    go invalid a l = refl

-- Every row satisfies the table's constraints.
abbrev pub Accepted : List SourceCredential → Type 0
Accepted rows = all credential_accepted rows ≡ true

pub find-Accepted :
    (source : Text) (rows : List SourceCredential) (c : SourceCredential)
    → Accepted rows
    → find_credential source rows ≡ some c
    → credential_accepted c ≡ true
unfolding find_credential
find-Accepted source [] c good h = cc h
find-Accepted source (r ∷ rows) c good h = ground (arith, find-Accepted source rows c)

pub replace-Accepted :
    (source : Text) (row : SourceCredential) (rows : List SourceCredential)
    → Accepted rows
    → credential_accepted row ≡ true
    → Accepted (replace_credential source row rows)
unfolding replace_credential
replace-Accepted source row [] good h = refl
replace-Accepted source row (r ∷ rows) good h = ground (arith, replace-Accepted source row rows)

pub append-Accepted :
    (rows : List SourceCredential) (row : SourceCredential)
    → Accepted rows
    → credential_accepted row ≡ true
    → Accepted (rows ++ row ∷ [])
append-Accepted [] row good h = rw (h) refl
append-Accepted (r ∷ rows) row good h = ground (arith, append-Accepted rows row)

pub find-append :
    (source : Text) (rows : List SourceCredential) (row : SourceCredential)
    → row.source ≡ source
    → find_credential source rows ≡ none
    → find_credential source (rows ++ row ∷ []) ≡ some row
unfolding find_credential
find-append source [] row same h = ground (arith, eq_iff row.source source)
find-append source (r ∷ rows) row same h = ground (arith, find-append source rows row)

pub flushed-Accepted :
    {A : Type 0} (a : A) (rows : List SourceCredential)
    → Accepted rows
    → flushed a rows ≡ (ok a, rows)
unfolding flushed
flushed-Accepted a rows good = rw (good) refl
