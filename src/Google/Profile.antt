-- ===== src/Google/Profile.antt =====
-- integrations/google/profile.py: discovery of accounts and locations, and its capped paging. What
-- Google answers to the `n`-th request with a page token is an argument.
use review_signal.Base.{
  ℕ, zero, suc, ◌+◌, Bool, false, ◌||◌, Option, none, some, List, [], ◌∷◌, ◌++◌, if◌then◌else◌,
  ◌==◌, Text, codes, Result, ok, ◌>>=◌, nat_eq, list_eq, option_eq,
}
use review_signal.Google.Mapping.{nonempty}

-- `DiscoveredAccount` and `DiscoveredLocation`: a bare path segment, and a label.
pub record DiscoveredAccount : Type 0 where
  pub account_id : Text
  pub name : Text

pub record DiscoveredLocation : Type 0 where
  pub location_id : Text
  pub title : Text

-- What one entry of a listing carries: its `name`, if that is a string, and its label.
pub record ProfileEntry : Type 0 where
  pub name : Option Text
  pub label : Option Text

-- A page envelope of either listing.
pub record ProfileEnvelope : Type 0 where
  pub entries : List ProfileEntry
  pub next_page_token : Option Text

-- `name[len(prefix):]` where `name.startswith(prefix)`.
unfoldable pub strip_prefix : Text → Text → Option Text
strip_prefix [] name = some name
strip_prefix (p ∷ prefix) [] = none
strip_prefix (p ∷ prefix) (c ∷ name) = if p == c then strip_prefix prefix name else none

-- `"/" in identifier`
unfoldable pub has_slash : Text → Bool
has_slash [] = false
has_slash (c ∷ cs) = c == b'/' || has_slash cs

-- An identifier that is not empty and has no slash.
unfoldable pub bare_segment : Text → Option Text
bare_segment [] = none
bare_segment (c ∷ cs) = if has_slash (c ∷ cs) then none else some (c ∷ cs)

-- `_resource_id`
unfoldable pub resource_id : Option Text → Text → Option Text
resource_id none prefix = none
resource_id (some name) prefix = elim (strip_prefix prefix name) [
  | none ↦ none
  | some identifier ↦ bare_segment identifier
]

-- The label, or the id where the label is missing or empty.
unfoldable pub label_or : Option Text → Text → Text
label_or label identifier = elim (nonempty label) [ none ↦ identifier | some t ↦ t ]

-- The inner loops of `list_accounts` and `list_locations`.
unfoldable pub accounts_of : List ProfileEntry → List DiscoveredAccount
accounts_of [] = []
accounts_of (entry ∷ rest) = elim (resource_id entry.name (codes "accounts/")) [
  | none ↦ accounts_of rest
  | some identifier ↦
      record { account_id = identifier; name = label_or entry.label identifier } ∷ accounts_of rest
]

unfoldable pub locations_of : List ProfileEntry → List DiscoveredLocation
locations_of [] = []
locations_of (entry ∷ rest) = elim (resource_id entry.name (codes "locations/")) [
  | none ↦ locations_of rest
  | some identifier ↦
      record { location_id = identifier; title = label_or entry.label identifier }
      ∷ locations_of rest
]

-- `_MAX_PAGES`
abbrev pub max_pages : ℕ
max_pages = 5

module _ (get : ℕ → Option Text → Result ProfileEnvelope) where
  -- `_paged`, from the rounds that are left, the number of the next request and the page token: all
  -- the envelopes that it yields, unless a request raises.
  unfoldable pub paged : ℕ → ℕ → Option Text → Result (List ProfileEnvelope)
  paged zero number token = ok []
  paged (suc rounds) number token = get number token >>= λ envelope.
      elim (nonempty envelope.next_page_token) [
        | none ↦ ok (envelope ∷ [])
        | some next ↦ paged rounds (number + 1) (some next) >>= λ rest. ok (envelope ∷ rest)
      ]

  unfoldable pub entries_of : List ProfileEnvelope → List ProfileEntry
  entries_of [] = []
  entries_of (envelope ∷ rest) = envelope.entries ++ entries_of rest

  -- `list_accounts` and `list_locations`
  unfoldable pub list_accounts : Result (List DiscoveredAccount)
  list_accounts = paged max_pages 0 none >>= λ pages. ok (accounts_of (entries_of pages))

  unfoldable pub list_locations : Result (List DiscoveredLocation)
  list_locations = paged max_pages 0 none >>= λ pages. ok (locations_of (entries_of pages))
