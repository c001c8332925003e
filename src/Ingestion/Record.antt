-- ===== src/Ingestion/Record.antt =====
-- The data that ingestion moves: integrations/base.py, the `reviews` and `sync_runs` rows of
-- db/models.py, and the counters of services/ingestion.py. A datetime is its microseconds in UTC, a
-- uuid a number; ratings below zero, which the table refuses like 0, are not told apart from 0.
use review_signal.Base.{
  ℕ, Bool, ◌&&◌, ◌||◌, Option, List, ltb, leb, length, Text, Fields, nat_eq, list_eq,
}

-- `NormalizedReview`
pub record NormalizedReview : Type 0 where
  pub source_review_id : Text
  pub rating : ℕ
  pub review_text : Option Text
  pub reviewer_name : Option Text
  pub created_at : ℕ
  pub updated_at : ℕ
  pub owner_reply_text : Option Text
  pub owner_reply_at : Option ℕ
  pub language : Text
  pub raw_payload : Fields

-- `ReviewPage`
pub record ReviewPage : Type 0 where
  pub reviews : List NormalizedReview
  pub next_cursor : Option Text
  pub unmappable_count : ℕ

-- `REVIEW_ANALYSIS_STATUSES`
pub data AnalysisStatus : Type 0 where
  pending analyzed failed skipped : AnalysisStatus

-- `Review`
pub record Review : Type 0 where
  pub id : ℕ
  pub source : Text
  pub source_review_id : Text
  pub rating : ℕ
  pub review_text : Option Text
  pub reviewer_name : Option Text
  pub created_at : ℕ
  pub updated_at : ℕ
  pub owner_reply_text : Option Text
  pub owner_reply_at : Option ℕ
  pub language : Text
  pub raw_payload : Fields
  pub analysis_status : AnalysisStatus
  pub inserted_at : ℕ

-- What the `reviews` table accepts: its column lengths and `ck_reviews_rating_range`.
unfoldable pub review_accepted : Review → Bool
review_accepted r =
    leb (length r.source) 64
    && leb (length r.source_review_id) 255
    && leb 1 r.rating
    && leb r.rating 5
    && leb (length r.language) 16

-- `SYNC_RUN_STATUSES`
pub data SyncStatus : Type 0 where
  running success failed partial : SyncStatus

-- `SyncRun`; `cursor_state` is the dict `{"next_cursor": …}` by its one entry.
pub record SyncRun : Type 0 where
  pub id : ℕ
  pub source : Text
  pub started_at : ℕ
  pub finished_at : Option ℕ
  pub status : SyncStatus
  pub reviews_fetched : ℕ
  pub reviews_created : ℕ
  pub reviews_updated : ℕ
  pub error_message : Option Text
  pub cursor_state : Option (Option Text)

-- What the `sync_runs` table accepts.
abbrev pub sync_run_accepted : SyncRun → Bool
sync_run_accepted r = leb (length r.source) 64

-- `UpsertOutcome`
pub data UpsertOutcome : Type 0 where
  created updated unchanged : UpsertOutcome

-- `IngestionOutcome`
pub record IngestionOutcome : Type 0 where
  pub fetched : ℕ
  pub created : ℕ
  pub updated : ℕ
  pub unchanged : ℕ
  pub unmappable : ℕ

-- `IngestionOutcome()`
abbrev pub no_outcome : IngestionOutcome
no_outcome = record { fetched = 0; created = 0; updated = 0; unchanged = 0; unmappable = 0 }

-- `stored_anything`
unfoldable pub stored_anything : IngestionOutcome → Bool
stored_anything o = ltb 0 o.created || ltb 0 o.updated
