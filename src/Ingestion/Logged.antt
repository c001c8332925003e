-- ===== src/Ingestion/Logged.antt =====
-- The `sync_runs` row of a run in progress, through each page that `IngestionService` commits.
use review_signal.Ingestion.Counts.{
  Progress, absorb-Progress, commit_cases, save_cursor-reviews, Stretch, take_page-Stretch,
}
use review_signal.Ingestion.Service.{take_page, settle, absorb, count_page, Walked, Adapter, walk}
use review_signal.Ingestion.Session.{Db, db_accepted, commit, Session, flush}
use review_signal.Ingestion.Record.{SyncRun, sync_run_accepted, ReviewPage, IngestionOutcome}
use review_signal.Base.{
  ℕ, ◌≡◌, refl, true, none, some, List, [], ◌∷◌, ◌++◌, arith, all, inl, inr, Bool, Option,
  Bool-cases, Text, Result, ok, err, zero, suc, ap, false, Option-cases,
}
use review_signal.Ingestion.SyncRuns.{find_run, has_id, replace_run, save_cursor}

-- A row that is written in a row's place is found there, and the table accepts it as it did the old.
pub find_run-replace_run :
    (key : ℕ) (row old : SyncRun) (rs : List SyncRun)
    → find_run key rs ≡ some old
    → has_id key row ≡ true
    → find_run key (replace_run key row rs) ≡ some row
unfolding find_run replace_run
find_run-replace_run key row old [] h k = cc
find_run-replace_run key row old (r ∷ rs) h k = ground (arith, find_run-replace_run key row old rs)

pub accepted-replace_run :
    (key : ℕ) (row : SyncRun) (rs : List SyncRun)
    → all sync_run_accepted rs ≡ true
    → sync_run_accepted row ≡ true
    → all sync_run_accepted (replace_run key row rs) ≡ true
unfolding replace_run
accepted-replace_run key row [] h k = refl
accepted-replace_run key row (r ∷ rs) h k = ground (arith, accepted-replace_run key row rs)

pub find_run-accepted :
    (key : ℕ) (row : SyncRun) (rs : List SyncRun)
    → all sync_run_accepted rs ≡ true
    → find_run key rs ≡ some row
    → (sync_run_accepted row ≡ true) × (has_id key row ≡ true)
unfolding find_run
find_run-accepted key row [] h k = cc
find_run-accepted key row (r ∷ rs) h k = ground (arith, find_run-accepted key row rs)

pub find_run-append :
    (key : ℕ) (row : SyncRun) (rs : List SyncRun)
    → find_run key rs ≡ none
    → has_id key row ≡ true
    → find_run key (rs ++ row ∷ []) ≡ some row
unfolding find_run
find_run-append key row [] h k = rw k refl
find_run-append key row (r ∷ rs) h k = ground (arith, find_run-append key row rs)

find_run-has_id :
    (key : ℕ) (row : SyncRun) (rs : List SyncRun)
    → find_run key rs ≡ some row
    → has_id key row ≡ true
unfolding find_run
find_run-has_id key row [] k = cc
find_run-has_id key row (r ∷ rs) k = ground (arith, find_run-has_id key row rs)

-- What is committed is accepted, and has the run's row.
pub record Logged (key : ℕ) (d : Db) : Type 0 where
  pub valid : db_accepted d ≡ true
  pub row : SyncRun
  pub found : find_run key d.sync_runs ≡ some row

pub commit-Accepted : (s : Session) → (commit s).0 ≡ ok tt → db_accepted s.work ≡ true
unfolding commit flush
commit-Accepted s h = elim (Bool-cases (db_accepted s.work)) [
  | inl good ↦ good
  | inr bad ↦ cc (rw (bad, commit, flush) at h)
]

save_cursor-found :
    (key : ℕ) (cursor : Option Text) (row : SyncRun) (s : Session)
    → find_run key s.work.sync_runs ≡ some row
    → (now : SyncRun) × (find_run key (save_cursor key cursor s).work.sync_runs ≡ some now)
unfolding save_cursor
save_cursor-found key cursor row s h =
    let now : SyncRun = record row { cursor_state = some cursor } in
    (
      now,
      rw (h, save_cursor)
          (find_run-replace_run key now row s.work.sync_runs h (find_run-has_id key row _ h)),
    )

module _ (key : ℕ) (page : ReviewPage) where
  settle-Logged :
      (r : Result Bool) (o o' : IngestionOutcome) (s s' : Session)
      → s.committed ≡ s.work
      → Logged key s.committed
      → Progress o s o' s'
      → Logged key (settle key page (r, o', s')).2.committed
  unfolding settle
  settle-Logged (err e) o o' s s' synced logged p = rw p.same_committed logged
  settle-Logged (ok b) o o' s s' synced logged p = elim (commit_cases saved) [
    | inl (e, c, k) ↦
        rw k (rw ((save_cursor-reviews key page.next_cursor s').1, p.same_committed) logged)
    | inr (c, k) ↦ rw k (record { valid = commit-Accepted saved c; row = there.0; found = there.1 })
  ]
    where
      saved : Session
      saved = save_cursor key page.next_cursor s'

      here : find_run key s'.work.sync_runs ≡ some logged.row
      here = rw (p.same_runs, ← synced) logged.found

      there : (now : SyncRun) × (find_run key saved.work.sync_runs ≡ some now)
      there = save_cursor-found key page.next_cursor logged.row s' here

  pub take_page-Logged :
      (source : Text) (stop_at : Option ℕ) (o : IngestionOutcome) (s : Session)
      → s.committed ≡ s.work
      → Logged key s.committed
      → Logged key (take_page source stop_at key page o s).2.committed
  unfolding take_page
  take_page-Logged source stop_at o s synced logged =
      let (r, o', s') = absorb source stop_at page.reviews (count_page page o) s in
      settle-Logged r (count_page page o) o' s s' synced logged
        (absorb-Progress source stop_at page.reviews (count_page page o) s).0

abbrev pub LoggedEnd : ℕ → Option (Walked (Unit {0})) → Type 0
LoggedEnd key none = Unit {0}
LoggedEnd key (some w) = Logged key w.2.committed

module _ {A : Type 0} (adapter : Adapter A) (stop_at : Option ℕ) (key : ℕ) where
  pub walk-Logged :
      (fuel : ℕ) (a : A) (cursor : Option Text) (o : IngestionOutcome) (s : Session)
      → s.committed ≡ s.work
      → Logged key s.committed
      → LoggedEnd key (walk adapter stop_at key fuel a cursor o s)
  unfolding walk
  walk-Logged zero a cursor o s synced logged = tt
  walk-Logged (suc fuel) a cursor o s synced logged =
      fetched (walk-Logged fuel) (adapter.fetch_page a cursor) refl
    where
      Rest : Type 0
      Rest =
          (a : A) (cursor : Option Text) (o : IngestionOutcome) (s : Session)
          → s.committed ≡ s.work
          → Logged key s.committed
          → LoggedEnd key (walk adapter stop_at key fuel a cursor o s)

      counts : {w w' : Walked Bool} → w ≡ w' → w.1 ≡ w'.1
      counts t = ap (λ (w : Walked Bool). w.1) t

      session : {w w' : Walked Bool} → w ≡ w' → w.2 ≡ w'.2
      session t = ap (λ (w : Walked Bool). w.2) t

      next_page :
          Rest
          → (page : ReviewPage) (a' : A) (w : Walked Bool)
          → adapter.fetch_page a cursor ≡ (ok page, a')
          → take_page adapter.source stop_at key page o s ≡ w
          → Stretch stop_at o s w
          → Logged key w.2.committed
          → LoggedEnd key (walk adapter stop_at key (suc fuel) a cursor o s)
      next_page rest page a' (err e, o', s') f t st l = rw (f, t, walk, session t) l
      next_page rest page a' (ok true, o', s') f t st l = rw (f, t, walk, session t) l
      next_page rest page a' (ok false, o', s') f t st l = elim (Option-cases page.next_cursor) [
        | inl last ↦ rw (f, t, last, walk, session t) l
        | inr (next, more) ↦
            rw (f, t, more, walk, counts t, session t, ap (λ (p : Result ReviewPage × A). p.1) f)
              (rest a' (some next) o' s' st.0 l)
      ]

      fetched :
          Rest
          → (p : Result ReviewPage × A) → adapter.fetch_page a cursor ≡ p
          → LoggedEnd key (walk adapter stop_at key (suc fuel) a cursor o s)
      fetched rest (err e, a') f = rw (f, walk) logged
      fetched rest (ok page, a') f =
          next_page rest page a' _ f refl
            (take_page-Stretch adapter.source stop_at key page o s synced)
            (take_page-Logged key page adapter.source stop_at o s synced logged)
