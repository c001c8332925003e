-- ===== src/Ingestion/Session.antt =====
-- What the ingestion code relies on of its SQLAlchemy session and of PostgreSQL: a unit of work over
-- two tables, flushed before each query and at each commit, when the database checks its rows.
use review_signal.Base.{
  ℕ, Bool, ◌&&◌, List, if◌then◌else◌, all, codes, integrity_error, Result, ok, err, raise, nat_eq,
  list_eq,
}
use review_signal.Ingestion.Record.{Review, review_accepted, SyncRun, sync_run_accepted}

pub record Db : Type 0 where
  pub reviews : List Review
  pub sync_runs : List SyncRun

-- `committed` is what others see; `work` is that with the transaction's own changes. `next_id` and
-- `db_now` are the database's next `gen_random_uuid()` and its `now()`.
pub record Session : Type 0 where
  pub committed : Db
  pub work : Db
  pub next_id : ℕ
  pub db_now : ℕ

unfoldable pub db_accepted : Db → Bool
db_accepted db = all review_accepted db.reviews && all sync_run_accepted db.sync_runs

-- A row that the database refuses makes the flush raise.
unfoldable pub flush : Session → Result (Unit {0})
flush s =
    if db_accepted s.work then ok tt else raise integrity_error (codes "row violates a constraint")

unfoldable pub commit : Session → Result (Unit {0}) × Session
unfolding flush
commit s = elim (flush s) [ err e ↦ (err e, s) | ok _ ↦ (ok tt, record s { committed = s.work }) ]

unfoldable pub rollback : Session → Session
rollback s = record s { work = s.committed }

abbrev pub with_reviews : List Review → Session → Session
with_reviews rows s = record s { work = record s.work { reviews = rows } }

abbrev pub with_sync_runs : List SyncRun → Session → Session
with_sync_runs rows s = record s { work = record s.work { sync_runs = rows } }
