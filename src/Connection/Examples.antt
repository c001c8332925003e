-- ===== src/Connection/Examples.antt =====
-- A connection that is opened, placed, used and left, with endpoints that always answer.
use review_signal.Connection.Discovery.{resolve_loaded, access_token}
use review_signal.Google.Mapping.{nonempty}
use review_signal.Credentials.Repository.{find_credential, replace_credential}
use review_signal.Credentials.Tokens.{
  load_credential, TokenResponse, refresh, take_response, take_token, store_token,
  commit_credential, resolve_access_token, reject_grant,
}
use review_signal.Connection.Oauth.{
  TokenRequest, GrantResponse, authorization_url, authorization_endpoint,
}
use review_signal.Base.{
  ◌≡◌, refl, ◌≢◌, false, none, some, List, [], ◌∷◌, drop, Text, codes, Result, ok, nat_eq, list_eq,
  option_eq, value_error, raise, true, ◌++◌,
}
use review_signal.Api.Settings.{Settings, default_settings}
use review_signal.Jobs.Record.{World}
use review_signal.Ingestion.Record.{success}
use review_signal.Ingestion.Session.{Session, Db, db_accepted, flush, commit}
use review_signal.Ingestion.SyncRuns.{start, find_run, finished, new_run, replace_run, save_cursor}
use review_signal.Ingestion.Service.{
  Adapter, backfill, run, walk, close_run, finish, take_page, absorb, settle,
}
use review_signal.Credentials.Record.{
  connected, SourceCredential, credential_accepted, CredentialStatus,
}
use review_signal.Connection.View.{view, is_granted, Accepted, withdrawn}
use review_signal.Connection.Steps.{Request, Stepped, choose, leave, use_token}
use review_signal.Connection.Refinement.{
  handle, handle_all, handle-Stepped, handle_all-closed, refuses,
}
use review_signal.Connection.Routes.{
  google_callback, enqueue_google, google_connect, Redirect, state_cookie, state_ttl_seconds,
}
use review_signal.Connection.Callback.{
  Bound, google_callback-Bound, sent, Replayed, google_callback-Replayed,
}
use review_signal.Connection.Ingest.{
  backfill_mode, ingest, ingest_target, ingest_with, leave_scope, run_mode,
}
use review_signal.Connection.Fetched.{Fetched, ingest-Fetched}
use review_signal.Connection.Queueing.{Queued, enqueue_google-Queued}

abbrev seal : Text → Result Text
seal t = ok (b'#' ∷ t)

abbrev unseal : Text → Result Text
unseal t = ok (drop 1 t)

abbrev grants : TokenRequest → Result GrantResponse
grants request = ok (record {
  status_code = 200;
  response_text = [];
  json = ok (record {
    refresh_token = some (codes "r");
    access_token = some (codes "a");
    expires_in = some 3600;
    scope = some (codes "one two");
  });
})

abbrev refreshes : Text → Result TokenResponse
refreshes t = ok (record {
  status_code = 200;
  json = ok (record { access_token = some (codes "b"); expires_in = none });
})

abbrev settings : Settings
settings = default_settings [] [] []

abbrev opened : SourceCredential
opened = record {
  id = 1;
  source = codes "google";
  status = connected;
  account_id = some (codes "a1");
  location_id = some (codes "l1");
  access_token_encrypted = none;
  refresh_token_encrypted = some (codes "#r");
  token_expires_at = none;
  scopes = [];
  connected_at = some 5;
  updated_at = 5;
}

opened-Accepted : Accepted (opened ∷ [])
unfolding credential_accepted
opened-Accepted = refl

-- A token is needed, and the endpoint rejects the grant.
abbrev refuses_grants : Text → Result TokenResponse
refuses_grants t = ok (record { status_code = 400; json = raise value_error [] })

abbrev asking : Request
asking = use_token 9000000000

handle-Stepped_example :
    Stepped
      (refuses seal unseal grants refuses_grants settings asking (opened ∷ []))
      (opened ∷ [])
      asking
      (handle seal unseal grants refuses_grants settings asking (opened ∷ []))
handle-Stepped_example =
    handle-Stepped seal unseal grants refuses_grants settings asking (opened ∷ []) opened-Accepted

-- The grant was rejected, and is withdrawn.
withdrawn_now :
    view (handle seal unseal grants refuses_grants settings asking (opened ∷ [])).1 ≡ withdrawn
unfolding handle access_token resolve_loaded load_credential resolve_access_token refresh
    take_response reject_grant commit_credential credential_accepted find_credential
    replace_credential view
withdrawn_now = refl

-- The table behind the disconnection.
abbrev ended : List SourceCredential
ended =
    record opened {
      status = CredentialStatus.disconnected;
      access_token_encrypted = none;
      refresh_token_encrypted = none;
    }
    ∷ []

ended-Accepted : Accepted ended
unfolding credential_accepted
ended-Accepted = refl

ended_closed : is_granted (view ended) ≡ false
unfolding view find_credential
ended_closed = refl

abbrev attempts : List Request
attempts = use_token 9 ∷ choose (codes "a2") (codes "l2") 10 ∷ leave 11 ∷ []

handle_all-closed_example :
    (is_granted (view (handle_all seal unseal grants refreshes settings attempts ended)) ≡ false)
    × ((c : SourceCredential)
        → load_credential
            (codes "google")
            (handle_all seal unseal grants refreshes settings attempts ended)
          ≢ ok c)
handle_all-closed_example =
    handle_all-closed seal unseal grants refreshes settings attempts ended ended-Accepted
      ended_closed refl

google_callback-Bound_example :
    Bound seal grants settings (codes "s") (some (codes "s")) (opened ∷ []) (
      google_callback seal grants settings
        (codes "c")
        (codes "s")
        (some (codes "s"))
        2
        7
        8
        (opened ∷ []))
google_callback-Bound_example =
    google_callback-Bound seal grants settings (codes "c") (codes "s") (some (codes "s")) 2 7 8
      (opened ∷ []) opened-Accepted

abbrev idle : World (Unit {0})
idle = record { jobs = λ k. none; queue = []; rest = tt }

enqueue_google-Queued_example :
    Queued backfill_mode 4 idle
      (is_granted (view (opened ∷ [])))
      (ok tt)
      (enqueue_google (codes "google_backfill") (opened ∷ []) 4 9 (ok tt) idle)
enqueue_google-Queued_example = enqueue_google-Queued backfill_mode (opened ∷ []) 4 9 (ok tt) idle

-- A source with one empty page.
abbrev empty_source : (access_token account_id location_id : Text) → Adapter (Unit {0})
empty_source t a l = record {
  source = codes "google";
  fetch_page = λ s c. (ok (record { reviews = []; next_cursor = none; unmappable_count = 0 }), s);
}

abbrev fresh : Session
fresh = record {
  committed = record { reviews = []; sync_runs = [] };
  work = record { reviews = []; sync_runs = [] };
  next_id = 0;
  db_now = 0;
}

abbrev closed : Session
closed =
    let db : Db = record {
      reviews = [];
      sync_runs =
          record {
            id = 0;
            source = codes "google";
            started_at = 20;
            finished_at = some 21;
            status = success;
            reviews_fetched = 0;
            reviews_created = 0;
            reviews_updated = 0;
            error_message = none;
            cursor_state = some none;
          }
          ∷ [];
    } in
    record { committed = db; work = db; next_id = 1; db_now = 0 }

abbrev refreshed : List SourceCredential
refreshed =
    record opened {
      access_token_encrypted = some (codes "#b");
      token_expires_at = some 3600000019;
      updated_at = 19;
    }
    ∷ []

job_succeeds :
    ingest seal unseal refreshes empty_source backfill_mode 19 20 21 1 tt (opened ∷ []) fresh
    ≡ some (ok tt, refreshed, closed)
unfolding ingest ingest_target ingest_with leave_scope run_mode find_credential refresh
    take_response take_token nonempty store_token commit_credential credential_accepted run start
    flush db_accepted new_run commit walk take_page absorb settle close_run finish find_run finished
    replace_run save_cursor resolve_loaded resolve_access_token replace_credential load_credential
    backfill
job_succeeds = refl

ingest-Fetched_example :
    Fetched seal unseal refreshes empty_source backfill_mode 19 20 21 1 tt
      (opened ∷ [])
      refreshed
      fresh
      closed
ingest-Fetched_example =
    ingest-Fetched seal unseal refreshes empty_source backfill_mode 19 20 21 1 tt (opened ∷ [])
      refreshed fresh closed tt opened-Accepted job_succeeds

-- The browser that the connect route has given a state, and its callbacks with it.
abbrev configured : Settings
configured = record settings { google_client_id = codes "i"; google_redirect_uri = codes "u" }

abbrev redirect : Redirect
redirect = record {
  url = authorization_endpoint ++ b'?' ∷ [];
  cookie = record {
    name = state_cookie;
    value = some (codes "s");
    max_age = some state_ttl_seconds;
    httponly = true;
    secure = false;
    samesite = codes "lax";
    path = codes "/api/v1/google";
  };
}

connects : google_connect (λ fields. []) configured (codes "s") ≡ ok redirect
unfolding google_connect authorization_url
connects = refl

google_callback-Replayed_example :
    Replayed seal grants configured redirect.cookie (codes "d") (codes "s") 3 17 18 (
      google_callback seal grants configured
        (codes "c")
        (codes "s")
        (sent (some redirect.cookie))
        2
        7
        8
        [])
google_callback-Replayed_example =
    google_callback-Replayed seal grants configured (λ fields. []) redirect (codes "c") (codes "d")
      (codes "s") 2 7 8 3 17 18 [] connects refl
