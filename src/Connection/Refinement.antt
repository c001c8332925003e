-- ===== src/Connection/Refinement.antt =====
-- The connection's requests as one machine, over any sequence of them.
use review_signal.Connection.Discovery.{access_token}
use review_signal.Connection.Service.{google_source, disconnect}
use review_signal.Connection.Simulation.{choose-Stepped, leave-Stepped}
use review_signal.Connection.Routes.{google_select_location}
use review_signal.Credentials.Record.{SourceCredential}
use review_signal.Api.Settings.{Settings}
use review_signal.Credentials.Tokens.{TokenResponse, load_credential}
use review_signal.Connection.Oauth.{TokenRequest, GrantResponse, complete}
use review_signal.Base.{
  ◌≡◌, refl, ◌≢◌, Bool, true, false, not, List, [], ◌∷◌, arith, all, Text, Result, ok, nat_eq,
  list_eq, option_eq,
}
use review_signal.Connection.View.{Connection, view, is_granted, Accepted}
use review_signal.Connection.Steps.{
  Request, exchange, choose, leave, use_token, Step, granted_anew, not_granted, chosen, not_chosen,
  left, resolved, rejected, Stepped, exchange-Stepped,
}
use review_signal.Connection.Machine.{
  load_credential-granted, answer_of, use_token-Stepped, withdraws,
}

module _ (encrypt decrypt : Text → Result Text)
    (exchange_code : TokenRequest → Result GrantResponse)
    (refresh_grant : Text → Result TokenResponse) (settings : Settings) where
  -- What the routes, the worker and discovery do to the table.
  unfoldable pub handle :
      Request → List SourceCredential → Result (Unit {0}) × List SourceCredential
  unfolding complete google_select_location disconnect access_token
  handle (exchange code id now stored) rows =
      complete encrypt exchange_code settings code id now stored rows
  handle (choose account_id location_id now) rows =
      google_select_location account_id location_id now rows
  handle (leave now) rows = disconnect now rows
  handle (use_token now) rows =
      let (r, rows') = access_token encrypt decrypt refresh_grant now rows in (answer_of r, rows')

  -- Whether Google rejects the grant that a request has to use.
  abbrev pub refuses : Request → List SourceCredential → Bool
  refuses (use_token now) rows = withdraws encrypt decrypt refresh_grant now rows
  refuses request rows = false

  -- The table's constraints are an invariant of every request on the connection, and each request is
  -- a step of the abstract connection: a granted exchange opens a connection without a location; a
  -- well-formed location is chosen exactly where there is a grant; leaving ends it; a token is only
  -- given where there is a grant. A request for a token withdraws the grant exactly where the stored
  -- token cannot be used again and Google answers the grant with 400 or 401, and it then raises
  -- `SourceNotConnectedError`; any other request that fails leaves the state as it was.
  pub handle-Stepped :
      (request : Request) (rows : List SourceCredential)
      → Accepted rows
      → Stepped (refuses request rows) rows request (handle request rows)
  unfolding handle
  handle-Stepped (exchange code id now stored) rows good =
      exchange-Stepped encrypt exchange_code settings false code id now stored rows good
  handle-Stepped (choose account_id location_id now) rows good =
      choose-Stepped false account_id location_id now rows good
  handle-Stepped (leave now) rows good = leave-Stepped false now rows good
  handle-Stepped (use_token now) rows good =
      use_token-Stepped encrypt decrypt refresh_grant now rows good

  -- A sequence of requests.
  unfoldable pub handle_all : List Request → List SourceCredential → List SourceCredential
  handle_all [] rows = rows
  handle_all (request ∷ rest) rows = handle_all rest (handle request rows).1

  abbrev pub is_exchange : Request → Bool
  is_exchange (exchange code id now stored) = true
  is_exchange request = false

  Step-stays :
      {refused : Bool} {s s' : Connection} {request : Request} {r : Result (Unit {0})}
      → Step refused s request r s'
      → is_exchange request ≡ false
      → is_granted s ≡ false
      → is_granted s' ≡ false
  Step-stays granted_anew plain closed = cc plain
  Step-stays not_granted plain closed = closed
  Step-stays (chosen open_now) plain closed = cc (open_now, closed)
  Step-stays (not_chosen why) plain closed = closed
  Step-stays left plain closed = refl
  Step-stays (resolved when let_in) plain closed = closed
  Step-stays (rejected open_now class refused) plain closed = refl

  -- A connection that is over stays so until a new exchange: after any other requests, in any order,
  -- the worker's guard still raises `SourceNotConnectedError`, so that no job reaches Google.
  pub handle_all-closed :
      (requests : List Request) (rows : List SourceCredential)
      → Accepted rows
      → is_granted (view rows) ≡ false
      → all (λ request. not (is_exchange request)) requests ≡ true
      → (is_granted (view (handle_all requests rows)) ≡ false)
        × ((c : SourceCredential) → load_credential google_source (handle_all requests rows) ≢ ok c)
  unfolding handle_all
  handle_all-closed [] rows good closed plain = (
    closed,
    λ c e. let (found, open_now) = load_credential-granted rows c e in cc (closed, open_now),
  )
  handle_all-closed (request ∷ rest) rows good closed plain =
      let (sound, step) = handle-Stepped request rows good in
      handle_all-closed rest (handle request rows).1 sound (Step-stays step (ground arith) closed)
        (ground arith)
