-- ===== src/Ingestion/Recorded.antt =====
-- What `_fail` of `IngestionService` writes on the row of a run that raised.
use review_signal.Ingestion.Counts.{Stretch}
use review_signal.Ingestion.Service.{fail, Walked}
use review_signal.Ingestion.Logged.{
  Logged, find_run-accepted, find_run-replace_run, accepted-replace_run,
}
use review_signal.Ingestion.Record.{
  SyncRun, sync_run_accepted, review_accepted, failed, partial, stored_anything, IngestionOutcome,
  no_outcome, SyncStatus,
}
use review_signal.Ingestion.Session.{
  db_accepted, commit, flush, Session, with_sync_runs, Db, rollback,
}
use review_signal.Base.{
  ℕ, ◌≡◌, refl, true, some, ok, Bool, ◌&&◌, arith, all, ◌+◌, ◌≤◌, ◌<◌, inl, inr, Option, Bool-cases,
  length, Exception, describe, ap, false, err,
}
use review_signal.Ingestion.SyncRuns.{find_run, replace_run, has_id, finished}

and_split : (a b : Bool) → a && b ≡ true → (a ≡ true) × (b ≡ true)
and_split a b h = ground arith

commit-ok :
    (s : Session)
    → db_accepted s.work ≡ true
    → ((commit s).0 ≡ ok tt) × ((commit s).1 ≡ record s { committed = s.work })
unfolding commit flush
commit-ok s h = rw (h, commit, flush) (refl, refl)

-- A row in the place of the run's row, from the same source, is committed and found.
pub replaced-ok :
    (key : ℕ) (row : SyncRun) (s : Session) (l : Logged key s.work)
    → row.source ≡ l.row.source
    → row.id ≡ l.row.id
    → let (r, s') = commit (with_sync_runs (replace_run key row s.work.sync_runs) s) in
      (r ≡ ok tt)
      × (find_run key s'.committed.sync_runs ≡ some row)
      × (s'.committed.reviews ≡ s.work.reviews)
unfolding db_accepted
replaced-ok key row s l same_source same_id =
    let (r, k) = commit-ok next valid in
    (
      r,
      rw k (find_run-replace_run key row l.row s.work.sync_runs l.found (rw same_id was.1)),
      rw k refl,
    )
  where
    next : Session
    next = with_sync_runs (replace_run key row s.work.sync_runs) s

    parts :
        (all review_accepted s.work.reviews ≡ true)
        × (all sync_run_accepted s.work.sync_runs ≡ true)
    parts = and_split _ _ l.valid

    was : (sync_run_accepted l.row ≡ true) × (has_id key l.row ≡ true)
    was = find_run-accepted key l.row s.work.sync_runs parts.1 l.found

    valid : db_accepted next.work ≡ true
    valid = rw (parts.0, accepted-replace_run key row _ parts.1 (rw same_source was.0)) refl

-- What the run's row says of how a table of `before` reviews has become the one that is committed: it
-- is `failed` only if no review was added, and `partial` only if it counts one created or updated; and
-- no more were added than it counts. It may count more, those of a page that was rolled back.
pub data Tells (before : ℕ) (row : SyncRun) (d : Db) : Type 0 where
  nothing_stored :
      row.status ≡ failed
      → row.reviews_created ≡ 0
      → row.reviews_updated ≡ 0
      → length d.reviews ≡ before
      → Tells before row d
  something_stored :
      row.status ≡ partial
      → 0 < row.reviews_created + row.reviews_updated
      → before ≤ length d.reviews
      → length d.reviews ≤ before + row.reviews_created
      → Tells before row d

stored : (o : IngestionOutcome) → stored_anything o ≡ true → 0 < o.created + o.updated
unfolding stored_anything
stored o h = ground arith

nothing : (o : IngestionOutcome) → stored_anything o ≡ false → (o.created ≡ 0) × (o.updated ≡ 0)
unfolding stored_anything
nothing o h = ground arith

-- The run's row with the end and the error of a failed run.
abbrev pub Recorded : (key ended : ℕ) → Exception → (before : ℕ) → Db → Type 0
Recorded key ended e before d =
    (row : SyncRun) × (find_run key d.sync_runs ≡ some row)
    × (row.finished_at ≡ some ended)
    × (row.error_message ≡ some (describe e))
    × Tells before row d

pub fail-Recorded :
    (stop_at : Option ℕ) (key now : ℕ) (o : IngestionOutcome) (e : Exception) (base s : Session)
    → Logged key s.committed
    → Stretch stop_at no_outcome base (let w : Walked (Unit {0}) = (err e, o, s) in w)
    → let (r, s') = fail key o e now s in
      (r ≡ ok tt) × Recorded key now e (length base.committed.reviews) s'.committed
unfolding fail rollback finished
fail-Recorded stop_at key now o e base s logged st = elim (Bool-cases (stored_anything o)) [
  | inl some_stored ↦
      let (r, found, same) = kept (row partial) refl refl in
      rw (logged.found, some_stored, fail)
        (
          r,
          (
            row partial,
            found,
            refl,
            refl,
            something_stored refl (stored o some_stored) (rw same st.0)
                (omega (arith, st.1, ap length same)),
          ),
        )
  | inr none_stored ↦
      let (r, found, same) = kept (row failed) refl refl in
      let (none_created, none_updated) = nothing o none_stored in
      rw (logged.found, none_stored, fail)
        (
          r,
          (
            row failed,
            found,
            refl,
            refl,
            nothing_stored refl none_created none_updated
                (omega (arith, st.0, st.1, ap length same)),
          ),
        )
]
  where
    row : SyncStatus → SyncRun
    row status = record logged.row {
      status = status;
      finished_at = some now;
      reviews_fetched = o.fetched;
      reviews_created = o.created;
      reviews_updated = o.updated;
      error_message = some (describe e);
    }

    kept :
        (new : SyncRun)
        → new.source ≡ logged.row.source
        → new.id ≡ logged.row.id
        → let (r, s') =
            commit (with_sync_runs (replace_run key new s.committed.sync_runs) (rollback s)) in
          (r ≡ ok tt)
          × (find_run key s'.committed.sync_runs ≡ some new)
          × (s'.committed.reviews ≡ s.committed.reviews)
    kept new h k = replaced-ok key new (rollback s) logged h k
