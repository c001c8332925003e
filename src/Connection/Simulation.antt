-- ===== src/Connection/Simulation.antt =====
-- Every request is a step: the choice of a location, the end of a connection, and a token.
use review_signal.Credentials.Repository.{
  disconnected_row, mark_disconnected, find_credential, set_location, replace_credential,
}
use review_signal.Credentials.Record.{
  connected, disconnected, invalid, credential_accepted, SourceCredential, CredentialStatus,
  is_connected,
}
use review_signal.Connection.Routes.{google_select_location, is_resource_id}
use review_signal.Connection.Service.{
  disconnect, ensure_connected, google_source, select_location, committed,
}
use review_signal.Base.{
  ℕ, ◌≡◌, refl, sym, ◌∙◌, inl, inr, true, ◌&&◌, Option, none, some, List, arith, leb, if◌then◌else◌,
  Bool-cases, length, Text, codes, google_not_connected_error, Result, ok, raise, nat_eq, list_eq,
  option_eq, Bool,
}
use review_signal.Connection.View.{
  absent, selected, view_row, view, is_granted, granted_row, Accepted, find-Accepted,
  flushed-Accepted,
}
use review_signal.Connection.Steps.{
  choose, leave, chosen, not_chosen, left, view-none, view-replace, Stepped,
}

-- The guard of the service holds exactly in the granted states.
pub ensure_connected-view :
    (rows : List SourceCredential)
    → ensure_connected rows ≡ (
        if is_granted (view rows)
        then ok tt
        else raise google_not_connected_error
            (codes "Google is not connected; connect it before syncing."))
unfolding ensure_connected view
ensure_connected-view rows = go (find_credential google_source rows) refl
  where
    refused : Result (Unit {0})
    refused =
        raise google_not_connected_error
          (codes "Google is not connected; connect it before syncing.")

    go :
        (o : Option SourceCredential)
        → find_credential google_source rows ≡ o
        → ensure_connected rows ≡ (if is_granted (view rows) then ok tt else refused)
    go none h = rw (h, ensure_connected, view) refl
    go (some c) h = rw (h, ensure_connected, view, granted_row c) refl

placed-accepted :
    (c : SourceCredential) (a l : Text) (now : ℕ)
    → credential_accepted c ≡ true
    → leb (length a) 255 ≡ true
    → leb (length l) 255 ≡ true
    → credential_accepted (record c { account_id = some a; location_id = some l; updated_at = now })
      ≡ true
unfolding credential_accepted
placed-accepted c a l now good ha hl = ground arith

id-fits : (t : Text) → is_resource_id t ≡ true → leb (length t) 255 ≡ true
unfolding is_resource_id
id-fits t h = ground arith

pub found_granted :
    (rows : List SourceCredential)
    → is_granted (view rows) ≡ true
    → (c : SourceCredential) × (find_credential google_source rows ≡ some c)
      × (c.status ≡ CredentialStatus.connected)
unfolding view
found_granted rows h = go (find_credential google_source rows) refl
  where
    by_status :
        (c : SourceCredential) (s : CredentialStatus)
        → is_connected s ≡ true
        → s ≡ CredentialStatus.connected
    by_status c connected e = refl
    by_status c disconnected e = cc e
    by_status c invalid e = cc e

    go :
        (o : Option SourceCredential)
        → find_credential google_source rows ≡ o
        → (c : SourceCredential) × (find_credential google_source rows ≡ some c)
          × (c.status ≡ CredentialStatus.connected)
    go none e = cc (rw (e, view) at h)
    go (some c) e = (c, e, by_status c c.status (sym (granted_row c) ∙ rw (e, view) at h))

choose-placed :
    (refused : Bool) (a l : Text) (now : ℕ) (rows : List SourceCredential)
    → Accepted rows
    → is_resource_id a && is_resource_id l ≡ true
    → is_granted (view rows) ≡ true
    → Stepped refused rows (choose a l now) (google_select_location a l now rows)
unfolding google_select_location select_location committed set_location
choose-placed refused a l now rows good ids h =
    let (c, found, live) = found_granted rows h in
    let row : SourceCredential = record c {
      account_id = some a;
      location_id = some l;
      updated_at = now;
    } in
    let fit =
      placed-accepted c a l now (find-Accepted google_source rows c good found)
        (id-fits a (ground arith)) (id-fits l (ground arith)) in
    let (sound, seen) = view-replace rows c row good found refl fit in
    let placed : view_row row ≡ selected a l = simp (live) refl in
    rw
      (
        google_select_location,
        ids,
        select_location,
        ensure_connected-view rows,
        h,
        set_location,
        found,
        flushed-Accepted (some row) (replace_credential google_source row rows) sound,
        committed,
        seen ∙ placed,
      )
      (sound, chosen h)

pub choose-Stepped :
    (refused : Bool) (a l : Text) (now : ℕ) (rows : List SourceCredential)
    → Accepted rows
    → Stepped refused rows (choose a l now) (google_select_location a l now rows)
unfolding google_select_location select_location
choose-Stepped refused a l now rows good =
    elim (Bool-cases (is_resource_id a && is_resource_id l)) [
      | inr bad ↦ rw (bad, google_select_location) (good, not_chosen (inr bad))
      | inl ids ↦ elim (Bool-cases (is_granted (view rows))) [
        | inl h ↦ choose-placed refused a l now rows good ids h
        | inr h ↦
            rw (ids, google_select_location, select_location, ensure_connected-view rows, h)
              (good, not_chosen (inl h))
      ]
    ]

ended-accepted :
    (c : SourceCredential) (now : ℕ)
    → credential_accepted c ≡ true
    → credential_accepted (disconnected_row now c) ≡ true
unfolding credential_accepted disconnected_row
ended-accepted c now good = ground arith

pub leave-Stepped :
    (refused : Bool) (now : ℕ) (rows : List SourceCredential)
    → Accepted rows
    → Stepped refused rows (leave now) (disconnect now rows)
unfolding disconnect mark_disconnected committed disconnected_row
leave-Stepped refused now rows good = go (find_credential google_source rows) refl
  where
    same_source : (c : SourceCredential) → (disconnected_row now c).source ≡ c.source
    same_source c = refl

    ended : (c : SourceCredential) → view_row (disconnected_row now c) ≡ absent
    ended c = refl

    go :
        (o : Option SourceCredential)
        → find_credential google_source rows ≡ o
        → Stepped refused rows (leave now) (disconnect now rows)
    go none h = rw (disconnect, mark_disconnected, h, committed) (good, rw (view-none rows h) left)
    go (some c) h =
        let row = disconnected_row now c in
        let (sound, seen) =
          view-replace rows c row good h (same_source c)
            (ended-accepted c now (find-Accepted google_source rows c good h)) in
        rw
          (
            disconnect,
            mark_disconnected,
            h,
            flushed-Accepted tt (replace_credential google_source row rows) sound,
            committed,
            seen ∙ ended c,
          )
          (sound, left)
