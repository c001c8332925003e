-- ===== src/Ingestion/Examples.antt =====
-- A small source and an empty database, and the ingestion theorems on them.
use review_signal.Base.{
  ◌≡◌, refl, Option, none, some, [], ◌∷◌, arith, Text, codes, end, Result, ok, err, Exception,
  describe, value_error, ◌⊎◌, nat_eq, list_eq, option_eq,
}
use review_signal.Ingestion.Record.{
  stored_anything, review_accepted, SyncStatus, NormalizedReview, Review, SyncRun, UpsertOutcome,
  IngestionOutcome,
}
use review_signal.Ingestion.Session.{Session, db_accepted, flush, commit, rollback}
use review_signal.Ingestion.Upsert.{
  find_review, new_review, text_changed, reply_changed, is_changed, upsert_found, upsert,
}
use review_signal.Ingestion.SyncRuns.{find_run, replace_run, new_run, start, save_cursor, finished}
use review_signal.Ingestion.Service.{
  Adapter, absorb, settle, take_page, walk, finish, close_run, run, fail,
}
use review_signal.Ingestion.Identity.{Answers}
use review_signal.Ingestion.Idempotence.{table, LeavesOthers, upsert-Answers, upsert_twice}
use review_signal.Ingestion.Walk.{RunsOut}
use review_signal.Ingestion.Counts.{rows}
use review_signal.Ingestion.Recorded.{Recorded}
use review_signal.Ingestion.Failures.{run-Failed}
use review_signal.Ingestion.Runs.{run-total, Succeeded, run-Succeeded}

abbrev review : NormalizedReview
review = record {
  source_review_id = codes "r1";
  rating = 5;
  review_text = some (codes "good");
  reviewer_name = none;
  created_at = 10;
  updated_at = 10;
  owner_reply_text = none;
  owner_reply_at = none;
  language = codes "en";
  raw_payload = end;
}

abbrev empty : Session
empty = record {
  committed = record { reviews = []; sync_runs = [] };
  work = record { reviews = []; sync_runs = [] };
  next_id = 1;
  db_now = 50;
}

-- Two pages with the same review on both; the state is unused.
abbrev two_pages : Adapter (Unit {0})
two_pages = record {
  source = codes "stub";
  fetch_page = λ (a : Unit {0}) (cursor : Option Text). (
    ok (elim cursor [
      | none ↦ record {
        reviews = review ∷ [];
        next_cursor = some (codes "p2");
        unmappable_count = 1;
      }
      | some c ↦ record { reviews = review ∷ []; next_cursor = none; unmappable_count = 0 }
    ]),
    tt,
  );
}

abbrev outcome : IngestionOutcome
outcome = record { fetched = 3; created = 1; updated = 0; unchanged = 1; unmappable = 1 }

abbrev stored : Review
stored = new_review (codes "stub") review 2 50

abbrev final_run : SyncRun
final_run = record {
  id = 1;
  source = codes "stub";
  started_at = 100;
  finished_at = some 200;
  status = SyncStatus.success;
  reviews_fetched = 3;
  reviews_created = 1;
  reviews_updated = 0;
  error_message = none;
  cursor_state = some none;
}

abbrev ended_with : Session
ended_with = record {
  committed = record { reviews = stored ∷ []; sync_runs = final_run ∷ [] };
  work = record { reviews = stored ∷ []; sync_runs = final_run ∷ [] };
  next_id = 3;
  db_now = 50;
}

two_pages-run : run two_pages none 100 200 2 tt empty ≡ some (ok outcome, ended_with)
unfolding run start flush commit db_accepted review_accepted walk take_page settle absorb upsert
    upsert_found find_review is_changed text_changed reply_changed new_review save_cursor find_run
    replace_run close_run finish finished new_run
two_pages-run = refl

run-Succeeded_example : Succeeded none empty outcome ended_with
run-Succeeded_example =
    run-Succeeded two_pages none 100 200 2 tt empty ended_with outcome two_pages-run

two_pages-RunsOut : RunsOut two_pages 2 tt none
two_pages-RunsOut = tt

run-total_example :
    (r : Result IngestionOutcome × Session) × (run two_pages none 100 200 2 tt empty ≡ some r)
run-total_example = run-total two_pages none 100 200 2 2 tt empty (omega arith) two_pages-RunsOut

empty-flush : flush empty ≡ ok tt
unfolding flush db_accepted
empty-flush = refl

flush-upsert : flush (upsert (codes "stub") review empty).1 ≡ ok tt
unfolding flush db_accepted upsert upsert_found find_review new_review review_accepted
flush-upsert = refl

upsert_twice_example :
    upsert (codes "stub") review (upsert (codes "stub") review empty).1
    ≡ (ok UpsertOutcome.unchanged, (upsert (codes "stub") review empty).1)
upsert_twice_example = upsert_twice (codes "stub") review empty empty-flush flush-upsert

upsert-Answers_example :
    let (r, s') = upsert (codes "stub") review empty in
    (o : UpsertOutcome) × (r ≡ ok o)
    × Answers
        (codes "stub")
        review
        (find_review (codes "r1") (table empty))
        (find_review (codes "r1") (table s'))
        o
    × LeavesOthers (codes "r1") (table empty) (table s')
upsert-Answers_example = upsert-Answers (codes "stub") review empty empty-flush

-- A source that breaks off behind its first page.
abbrev broken : Exception
broken = record { class_of = value_error; message = codes "no page" }

abbrev breaks_off : Adapter (Unit {0})
breaks_off = record {
  source = codes "stub";
  fetch_page = λ (a : Unit {0}) (cursor : Option Text). (
    elim cursor [
      | none ↦
          ok (record {
            reviews = review ∷ [];
            next_cursor = some (codes "p2");
            unmappable_count = 0;
          })
      | some c ↦ err broken
    ],
    tt,
  );
}

abbrev partial_run : SyncRun
partial_run = record {
  id = 1;
  source = codes "stub";
  started_at = 100;
  finished_at = some 200;
  status = SyncStatus.partial;
  reviews_fetched = 1;
  reviews_created = 1;
  reviews_updated = 0;
  error_message = some (describe broken);
  cursor_state = some (some (codes "p2"));
}

abbrev broke_with : Session
broke_with = record {
  committed = record { reviews = stored ∷ []; sync_runs = partial_run ∷ [] };
  work = record { reviews = stored ∷ []; sync_runs = partial_run ∷ [] };
  next_id = 3;
  db_now = 50;
}

breaks_off-run : run breaks_off none 100 200 2 tt empty ≡ some (err broken, broke_with)
unfolding run start flush commit db_accepted review_accepted walk take_page settle absorb upsert
    upsert_found find_review is_changed text_changed reply_changed new_review save_cursor find_run
    replace_run close_run fail rollback finished new_run stored_anything
breaks_off-run = refl

empty-fresh : find_run empty.next_id empty.work.sync_runs ≡ none
unfolding find_run
empty-fresh = refl

run-Failed_example :
    (broke_with.committed ≡ empty.committed)
    ⊎ Recorded empty.next_id 200 broken (rows empty) broke_with.committed
run-Failed_example =
    run-Failed breaks_off none 100 200 2 tt empty broke_with broken empty-fresh breaks_off-run
