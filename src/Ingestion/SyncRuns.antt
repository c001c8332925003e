-- ===== src/Ingestion/SyncRuns.antt =====
-- `SyncRunRepository` of repositories/sync_runs.py: the life of one `sync_runs` row.
use review_signal.Base.{
  ℕ, ◌+◌, Bool, true, false, ◌&&◌, Option, none, some, List, [], ◌∷◌, ◌++◌, ltb, if◌then◌else◌,
  keep, find_first, ◌==◌, Text, codes, value_error, Result, ok, err, raise, nat_eq, list_eq,
  option_eq,
}
use review_signal.Ingestion.Record.{IngestionOutcome, SyncStatus, running, success, SyncRun}
use review_signal.Ingestion.Session.{Session, flush, with_sync_runs}

abbrev pub has_id : ℕ → SyncRun → Bool
has_id key run = run.id == key

-- `session.get(SyncRun, key)`
unfoldable pub find_run : ℕ → List SyncRun → Option SyncRun
find_run key rows = find_first (has_id key) rows

unfoldable pub replace_run : ℕ → SyncRun → List SyncRun → List SyncRun
replace_run key row [] = []
replace_run key row (r ∷ rs) = if has_id key r then row ∷ rs else r ∷ replace_run key row rs

unfoldable pub new_run : Text → (id now : ℕ) → SyncRun
new_run source id now = record {
  id = id;
  source = source;
  started_at = now;
  finished_at = none;
  status = running;
  reviews_fetched = 0;
  reviews_created = 0;
  reviews_updated = 0;
  error_message = none;
  cursor_state = none;
}

-- `start`, which flushes the new row to learn its id.
unfoldable pub start : Text → ℕ → Session → Result ℕ × Session
start source now s =
    let added = record (with_sync_runs (s.work.sync_runs ++ new_run source s.next_id now ∷ []) s) {
      next_id = s.next_id + 1;
    } in
    elim (flush added) [ err e ↦ (err e, added) | ok _ ↦ (ok s.next_id, added) ]

-- `save_cursor` on the run's row.
unfoldable pub save_cursor : ℕ → Option Text → Session → Session
save_cursor key cursor s = elim (find_run key s.work.sync_runs) [
  | none ↦ s
  | some run ↦
      with_sync_runs (replace_run key (record run { cursor_state = some cursor }) s.work.sync_runs)
        s
]

-- `_FINISH_STATUSES`: every status but the start state.
abbrev pub is_finish_status : SyncStatus → Bool
is_finish_status running = false
is_finish_status status = true

-- `finish` on a row; the three counts arrive in the outcome that both callers take them from.
unfoldable pub finished : SyncRun → SyncStatus → IngestionOutcome → Option Text → ℕ → Result SyncRun
finished run status o error_message now =
    if is_finish_status status
    then ok (record run {
      status = status;
      finished_at = some now;
      reviews_fetched = o.fetched;
      reviews_created = o.created;
      reviews_updated = o.updated;
      error_message = error_message;
    })
    else raise value_error (codes "invalid sync run finish status")

-- The newest by `started_at`; of equals, the one that was stored first.
unfoldable pub newest : List SyncRun → Option SyncRun
newest [] = none
newest (r ∷ rs) = elim (newest rs) [
  | none ↦ some r
  | some best ↦ some (if ltb r.started_at best.started_at then best else r)
]

-- The filter of `last_successful`.
abbrev pub is_success_of : Text → SyncRun → Bool
is_success_of source run = run.source == source && elim run.status [ success ↦ true | _ ↦ false ]

-- `last_successful`
unfoldable pub last_successful : Text → List SyncRun → Option SyncRun
last_successful source rows = newest (keep (is_success_of source) rows)

-- `latest`
unfoldable pub latest : Text → List SyncRun → Option SyncRun
latest source rows = newest (keep (λ run. run.source == source) rows)
