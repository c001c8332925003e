-- ===== src/Ingestion/Service.antt =====
-- `IngestionService` of services/ingestion.py over `iter_pages` of integrations/base.py.
use review_signal.Base.{
  ℕ, zero, suc, ◌+◌, Bool, true, false, Option, none, some, List, [], ◌∷◌, leb, if◌then◌else◌,
  length, Text, Exception, describe, Result, ok, err, nat_eq, list_eq, option_eq,
}
use review_signal.Ingestion.Record.{
  NormalizedReview, ReviewPage, failed, SyncStatus, success, partial, SyncRun, UpsertOutcome,
  created, updated, unchanged, IngestionOutcome, no_outcome, stored_anything,
}
use review_signal.Ingestion.Session.{Session, flush, commit, rollback, with_sync_runs}
use review_signal.Ingestion.Upsert.{upsert}
use review_signal.Ingestion.SyncRuns.{
  find_run, replace_run, start, save_cursor, finished, last_successful,
}

-- `ReviewSourceAdapter`: a source may answer each call otherwise, so it has a state of its own.
pub record Adapter (A : Type 0) : Type 0 where
  pub source : Text
  pub fetch_page : A → Option Text → Result ReviewPage × A

abbrev pub tally : UpsertOutcome → IngestionOutcome → IngestionOutcome
tally created o = record o { created = o.created + 1 }
tally updated o = record o { updated = o.updated + 1 }
tally unchanged o = record o { unchanged = o.unchanged + 1 }

-- `stop_at is not None and review.updated_at <= stop_at`
abbrev pub is_seen : Option ℕ → NormalizedReview → Bool
is_seen none review = false
is_seen (some stop) review = leb review.updated_at stop

-- What a piece of the walk leaves: how it ended, the counters, the session. The counters are an
-- object that the caller shares, so they outlive an exception.
abbrev pub Walked : Type 0 → Type 0
Walked A = Result A × IngestionOutcome × Session

-- `_absorb` over the reviews of one page.
unfoldable pub absorb :
    Text → Option ℕ → List NormalizedReview → IngestionOutcome → Session → Walked Bool
absorb source stop_at [] o s = (ok false, o, s)
absorb source stop_at (review ∷ rest) o s = elim (is_seen stop_at review) [
  | true ↦ (ok true, o, s)
  | false ↦
      let (r, s') = upsert source review s in
      elim r [ err e ↦ (err e, o, s') | ok u ↦ absorb source stop_at rest (tally u o) s' ]
]

-- The counters before the page is absorbed.
abbrev pub count_page : ReviewPage → IngestionOutcome → IngestionOutcome
count_page page o = record o {
  fetched = o.fetched + length page.reviews + page.unmappable_count;
  unmappable = o.unmappable + page.unmappable_count;
}

-- The loop's body behind `_absorb`: save the cursor, commit.
unfoldable pub settle : ℕ → ReviewPage → Walked Bool → Walked Bool
settle key page (err e, o, s) = (err e, o, s)
settle key page (ok exhausted, o, s) =
    let (r, s') = commit (save_cursor key page.next_cursor s) in
    (elim r [ err e ↦ err e | ok _ ↦ ok exhausted ], o, s')

-- One round of the loop on the page that the adapter gave.
unfoldable pub take_page :
    Text → Option ℕ → ℕ → ReviewPage → IngestionOutcome → Session → Walked Bool
unfolding settle
take_page source stop_at key page o s =
    settle key page (absorb source stop_at page.reviews (count_page page o) s)

module _ {A : Type 0} (adapter : Adapter A) (stop_at : Option ℕ) (key : ℕ) where
  -- The `for` loop over `iter_pages`: `none` when the fuel, one for each page, runs out.
  unfoldable pub walk :
      ℕ → A → Option Text → IngestionOutcome → Session → Option (Walked (Unit {0}))
  walk zero a cursor o s = none
  walk (suc fuel) a cursor o s =
      let (fetched, a') = adapter.fetch_page a cursor in
      elim fetched [
        | err e ↦ some (err e, o, s)
        | ok page ↦
            let (taken, o', s') = take_page adapter.source stop_at key page o s in
            elim taken [
              | err e ↦ some (err e, o', s')
              | ok exhausted ↦ elim exhausted [
                | true ↦ some (ok tt, o', s')
                | false ↦ elim page.next_cursor [
                  | none ↦ some (ok tt, o', s')
                  | some next ↦ walk fuel a' (some next) o' s'
                ]
              ]
            ]
      ]

-- The row that `finish` left, or the old one where it raised; the statuses given never make it raise.
abbrev pub row_of : SyncRun → Result SyncRun → SyncRun
row_of old (ok run) = run
row_of old (err e) = old

-- `_finish`
unfoldable pub finish :
    ℕ → SyncStatus → IngestionOutcome → ℕ → Session → Result (Unit {0}) × Session
finish key status o now s = elim (find_run key s.work.sync_runs) [
  | none ↦ commit s
  | some run ↦ commit (
      with_sync_runs
        (replace_run key (row_of run (finished run status o none now)) s.work.sync_runs) s)
]

-- `"partial" if outcome.stored_anything else "failed"`
abbrev pub failure_status : IngestionOutcome → SyncStatus
failure_status o = if stored_anything o then partial else failed

-- `_fail`, whose last reading of the clock overwrites the one in `finish`.
unfoldable pub fail : ℕ → IngestionOutcome → Exception → ℕ → Session → Result (Unit {0}) × Session
fail key o exc now s =
    let back = rollback s in
    elim (find_run key back.work.sync_runs) [
      | none ↦ (ok tt, back)
      | some run ↦ commit (
          with_sync_runs
            (replace_run key
              (record (row_of run (finished run (failure_status o) o (some (describe exc)) now)) {
                finished_at = some now;
              })
              back.work.sync_runs)
            back)
    ]

-- A statement that may raise, and the value behind it.
abbrev pub then_return {ℓ} : {A : Type ℓ} → Result (Unit {0}) → A → Result A
then_return (err e) a = err e
then_return (ok _) a = ok a

-- A statement that may raise, and the `raise` behind it.
abbrev pub then_raise {ℓ} : {A : Type ℓ} → Result (Unit {0}) → Exception → Result A
then_raise (err e) exc = err e
then_raise (ok _) exc = err exc

-- The two ways out of the `try` of `_run`.
unfoldable pub close_run : ℕ → ℕ → Walked (Unit {0}) → Result IngestionOutcome × Session
close_run key now (err e, o, s) = let (r, s') = fail key o e now s in (then_raise r e, s')
close_run key now (ok _, o, s) = let (r, s') = finish key success o now s in (then_return r o, s')

-- `_run` from the clock's readings at its start and end: `none` when the fuel runs out.
unfoldable pub run :
    {A : Type 0}
    → Adapter A
    → Option ℕ
    → (begun ended fuel : ℕ) → A
    → Session
    → Option (Result IngestionOutcome × Session)
run adapter stop_at begun ended fuel a s =
    let (started, s₁) = start adapter.source begun s in
    elim started [
      | err e ↦ some (err e, s₁)
      | ok key ↦
          let (kept, s₂) = commit s₁ in
          elim kept [
            | err e ↦ some (err e, s₂)
            | ok _ ↦ elim (walk adapter stop_at key fuel a none no_outcome s₂) [
              | none ↦ none
              | some walked ↦ some (close_run key ended walked)
            ]
          ]
    ]

-- `backfill`
unfoldable pub backfill :
    {A : Type 0}
    → Adapter A
    → (begun ended fuel : ℕ) → A
    → Session
    → Option (Result IngestionOutcome × Session)
backfill adapter = run adapter none

-- `incremental`: the watermark is the start of the last successful run; the query flushes first.
unfoldable pub incremental :
    {A : Type 0}
    → Adapter A
    → (begun ended fuel : ℕ) → A
    → Session
    → Option (Result IngestionOutcome × Session)
incremental adapter begun ended fuel a s = elim (flush s) [
  | err e ↦ some (err e, s)
  | ok _ ↦
      run adapter
        (elim (last_successful adapter.source s.work.sync_runs) [
          | none ↦ none
          | some previous ↦ some previous.started_at
        ])
        begun ended fuel a s
]
