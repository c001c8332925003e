-- ===== src/Ingestion/Failures.antt =====
-- A whole run of `IngestionService._run` that raises, in its pages or before or behind them.
use review_signal.Ingestion.Walk.{Ended, walk-Stretch}
use review_signal.Ingestion.Counts.{Stretch, rows, commit_cases}
use review_signal.Ingestion.Service.{
  fail, Walked, finish, close_run, run, then_raise, Adapter, walk,
}
use review_signal.Ingestion.Logged.{
  Logged, commit-Accepted, find_run-append, LoggedEnd, walk-Logged,
}
use review_signal.Ingestion.Record.{IngestionOutcome, no_outcome, success}
use review_signal.Ingestion.Session.{db_accepted, commit, flush, Session, with_sync_runs}
use review_signal.Base.{
  ℕ, ◌≡◌, refl, some, ok, ◌+◌, inl, inr, Option, Bool-cases, length, Exception, ap, err, ◌⊎◌, none,
  [], ◌∷◌, ◌++◌, Text, Result, nat_beq_iff, codes, integrity_error, ◌∙◌,
}
use review_signal.Ingestion.SyncRuns.{find_run, finished, start, new_run}
use review_signal.Ingestion.Recorded.{replaced-ok, Recorded, fail-Recorded}

finish-ok :
    (key now : ℕ) (o : IngestionOutcome) (s : Session)
    → Logged key s.work
    → (finish key success o now s).0 ≡ ok tt
unfolding finish finished
finish-ok key now o s logged = rw (logged.found, finish) (replaced-ok key _ s logged refl refl).0

close_run-Failed :
    (stop_at : Option ℕ) (key now : ℕ) (base s' : Session) (e : Exception) (w : Walked (Unit {0}))
    → Stretch stop_at no_outcome base w
    → Logged key w.2.committed
    → close_run key now w ≡ (err e, s')
    → Recorded key now e (length base.committed.reviews) s'.committed
unfolding close_run
close_run-Failed stop_at key now base s' e (err x, o, s) st l h =
    let (fine, told) = fail-Recorded stop_at key now o x base s l st in
    let again : (then_raise (ok tt) x, (fail key o x now s).1) ≡ (err e, s') = rw fine at h in
    let same : x ≡ e = cc again in
    let there : (fail key o x now s).1 ≡ s' = cc again in rw (← same, ← there) told
close_run-Failed stop_at key now base s' e (ok u, o, s) st l h =
    cc (rw (finish-ok key now o s (rw (← st.0) l)) at h)

-- The session behind `start`, whether its flush raised or not.
abbrev added : Text → ℕ → Session → Session
added source now s =
    record (with_sync_runs (s.work.sync_runs ++ new_run source s.next_id now ∷ []) s) {
      next_id = s.next_id + 1;
    }

start_cases :
    (source : Text) (now : ℕ) (s : Session)
    → let (r, s') = start source now s in
      (s' ≡ added source now s) × ((r ≡ ok s.next_id) ⊎ ((e : Exception) × (r ≡ err e)))
unfolding start flush
start_cases source now s = elim (Bool-cases (db_accepted (added source now s).work)) [
  | inl good ↦ rw (good, start, flush) (refl, inl refl)
  | inr bad ↦ rw (bad, start, flush) (refl, inr (refused, refl))
]
  where
    refused : Exception
    refused = record { class_of = integrity_error; message = codes "row violates a constraint" }

-- A run that raises either ended before its row was committed, when nothing was, or has that row
-- committed with the time and the text of the error; and the row's status tells what became of the
-- table of reviews: `failed` only if it is as large as before, and `partial` only if the row counts a
-- created or an updated review, when it has shrunk by none and grown by no more than the row counts
-- as created. The one condition is that the row's id is fresh.
pub run-Failed :
    {A : Type 0} (adapter : Adapter A) (stop_at : Option ℕ) (begun ended fuel : ℕ) (a : A)
    (s s' : Session) (e : Exception)
    → find_run s.next_id s.work.sync_runs ≡ none
    → run adapter stop_at begun ended fuel a s ≡ some (err e, s')
    → (s'.committed ≡ s.committed) ⊎ Recorded s.next_id ended e (rows s) s'.committed
unfolding run new_run
run-Failed adapter stop_at begun ended fuel a s s' e fresh h =
    elim (start_cases adapter.source begun s).1 [
      | inr (x, started) ↦ inl (stays s₁ unmoved (rw (started, run) at h))
      | inl started ↦ elim (commit_cases s₁) [
        | inl (x, refused, k) ↦ inl (
            stays (commit s₁).1 (ap (λ (t : Session). t.committed) k ∙ unmoved)
              (rw (started, refused, run) at h))
        | inr (fine, k) ↦ inr (
            walked started fine k _ refl
              (walk-Stretch adapter stop_at s.next_id fuel a none no_outcome s₂ (synced k))
              (walk-Logged adapter stop_at s.next_id fuel a none no_outcome s₂ (synced k)
                (rw k (logged fine))))
      ]
    ]
  where
    s₁ : Session
    s₁ = (start adapter.source begun s).1

    s₂ : Session
    s₂ = (commit s₁).1

    begins : s₁ ≡ added adapter.source begun s
    begins = (start_cases adapter.source begun s).0

    unmoved : s₁.committed ≡ s.committed
    unmoved = ap (λ (t : Session). t.committed) begins

    Answer : Type 0
    Answer = Result IngestionOutcome × Session

    stays :
        {x : Exception} (t : Session)
        → t.committed ≡ s.committed
        → some (let v : Answer = (err x, t) in v) ≡ some (let v : Answer = (err e, s') in v)
        → s'.committed ≡ s.committed
    stays t same it = let there : t ≡ s' = cc it in rw (← there) same

    synced : (commit s₁).1 ≡ record s₁ { committed = s₁.work } → s₂.committed ≡ s₂.work
    synced k = rw k refl

    found_new :
        find_run s.next_id (added adapter.source begun s).work.sync_runs
        ≡ some (new_run adapter.source s.next_id begun)
    found_new =
        find_run-append s.next_id (new_run adapter.source s.next_id begun) s.work.sync_runs fresh
          ((nat_beq_iff s.next_id s.next_id).1 refl)

    logged : (commit s₁).0 ≡ ok tt → Logged s.next_id s₁.work
    logged fine = record {
      valid = commit-Accepted s₁ fine;
      row = new_run adapter.source s.next_id begun;
      found = rw begins found_new;
    }

    walked :
        (start adapter.source begun s).0 ≡ ok s.next_id
        → (commit s₁).0 ≡ ok tt
        → (commit s₁).1 ≡ record s₁ { committed = s₁.work }
        → (w : Option (Walked (Unit {0})))
        → walk adapter stop_at s.next_id fuel a none no_outcome s₂ ≡ w
        → Ended stop_at no_outcome s₂ w
        → LoggedEnd s.next_id w
        → Recorded s.next_id ended e (rows s) s'.committed
    walked started fine k none x st l =
        let no : none ≡ some (let v : Answer = (err e, s') in v) =
          rw (started, fine, x, run) at h in
        cc no
    walked started fine k (some w) x st l =
        let it : some (close_run s.next_id ended w) ≡ some (let v : Answer = (err e, s') in v) =
          rw (started, fine, x, run) at h in
        let same : close_run s.next_id ended w ≡ (err e, s') = cc it in
        let told = close_run-Failed stop_at s.next_id ended s₂ s' e w st l same in
        rw (k, begins) at told
