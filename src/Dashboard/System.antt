-- ===== src/Dashboard/System.antt =====
-- services/system.py, services/health.py and services/settings.py with their repositories. What a
-- probe of the database or of Redis answers is an argument.
use review_signal.Base.{
  ℕ, Bool, true, false, not, Option, none, some, List, [], ◌∷◌, map, ltb, if◌then◌else◌, length,
  keep, find_first, ◌==◌, Text, codes, Json, Fields, get_field, Result, err, ok, nat_eq, list_eq,
  option_eq,
}
use review_signal.Api.Settings.{Settings}
use review_signal.Ingestion.Record.{SyncRun, SyncStatus}
use review_signal.Jobs.Record.{Job, failed, dead_letter}
use review_signal.Taxonomy.Record.{TaxonomyVersion}
use review_signal.Connection.Service.{latest_sync_run}
use review_signal.Dashboard.Tree.{get_active_version}
use review_signal.Dashboard.Insights.{Insight}

-- `LastSync`
pub record LastSync : Type 0 where
  pub status : SyncStatus
  pub started_at : ℕ
  pub finished_at : Option ℕ
  pub reviews_created : ℕ
  pub reviews_updated : ℕ

-- `SystemStatusPayload`; of the active taxonomy, its number.
pub record SystemStatusPayload : Type 0 where
  pub last_sync : Option LastSync
  pub queue_depth : ℕ
  pub failed_jobs : ℕ
  pub active_taxonomy : Option ℕ
  pub active_model : Text
  pub last_insight_at : Option ℕ

abbrev pub is_failed : Job → Bool
is_failed job = elim job.status [ failed ↦ true | dead_letter ↦ true | _ ↦ false ]

-- `failed_job_count`
unfoldable pub failed_job_count : List Job → ℕ
failed_job_count jobs = length (keep is_failed jobs)

-- `last_insight_at`
unfoldable pub last_insight_at : List Insight → Option ℕ
last_insight_at [] = none
last_insight_at (i ∷ rest) = elim (last_insight_at rest) [
  | none ↦ some i.created_at
  | some t ↦ some (if ltb t i.created_at then i.created_at else t)
]

-- `_queue_depth`: any exception counts as an empty queue.
unfoldable pub queue_depth : Result ℕ → ℕ
queue_depth (ok depth) = depth
queue_depth (err e) = 0

abbrev pub last_sync_of : SyncRun → LastSync
last_sync_of run = record {
  status = run.status;
  started_at = run.started_at;
  finished_at = run.finished_at;
  reviews_created = run.reviews_created;
  reviews_updated = run.reviews_updated;
}

-- `SystemService.status`
unfoldable pub system_status :
    Settings
    → List SyncRun
    → List Job
    → List TaxonomyVersion
    → List Insight
    → Result ℕ
    → SystemStatusPayload
unfolding failed_job_count last_insight_at queue_depth get_active_version
system_status settings runs jobs versions insights redis_length = record {
  last_sync = elim (latest_sync_run runs) [ none ↦ none | some run ↦ some (last_sync_of run) ];
  queue_depth = queue_depth redis_length;
  failed_jobs = failed_job_count jobs;
  active_taxonomy = elim (get_active_version versions) [
    | none ↦ none
    | some version ↦ some version.version_number
  ];
  active_model = settings.ollama_model;
  last_insight_at = last_insight_at insights;
}

-- `ComponentHealth` and `HealthPayload`
pub record ComponentHealth : Type 0 where
  pub api : Text
  pub database : Text
  pub redis : Text

pub record HealthPayload : Type 0 where
  pub status : Text
  pub components : ComponentHealth

-- `OK` and `UNAVAILABLE`
abbrev pub healthy : Text
healthy = codes "ok"

abbrev pub unavailable : Text
unavailable = codes "unavailable"

-- `_probe_database` and `_probe_redis`
unfoldable pub probe : Result (Unit {0}) → Text
probe (ok u) = healthy
probe (err e) = unavailable

abbrev pub is_unhealthy : Text × Text → Bool
is_unhealthy (name, state) = not (state == healthy)

-- `check`: the payload and the names of the components that do not answer.
unfoldable pub check_health : (database redis : Result (Unit {0})) → HealthPayload × List Text
unfolding probe
check_health database redis =
    let components : ComponentHealth = record {
      api = healthy;
      database = probe database;
      redis = probe redis;
    } in
    let unhealthy : List Text =
      map (λ (p : Text × Text). p.0)
        (keep is_unhealthy
          ((codes "database", components.database) ∷ (codes "redis", components.redis) ∷ [])) in
    (
      record {
        status = if unhealthy == [] then healthy else codes "degraded";
        components = components;
      },
      unhealthy,
    )

-- A row of `settings`.
pub record Setting : Type 0 where
  pub key : Text
  pub value : Fields

-- `get_value`
unfoldable pub get_value : Text → List Setting → Option Fields
get_value key rows = elim (find_first (λ (s : Setting). s.key == key) rows) [
  | none ↦ none
  | some row ↦ some row.value
]

-- `SettingsPayload`, its values as the rows hold them.
pub record SettingsPayload : Type 0 where
  pub default_date_range_days : Option Json
  pub daily_sync_time : Option Json
  pub classification_threshold : Option Json
  pub active_model : Text
  pub embedding_model : Text

-- `row.get(name) if row else None`; an empty dict is no row, and has no entry either.
abbrev pub entry_of : Text → Option Fields → Option Json
entry_of name none = none
entry_of name (some value) = get_field name value

-- `get_settings`
unfoldable pub get_settings : Settings → List Setting → SettingsPayload
unfolding get_value
get_settings config rows = record {
  default_date_range_days =
      entry_of (codes "days") (get_value (codes "default_date_range_days") rows);
  daily_sync_time = entry_of (codes "time") (get_value (codes "daily_sync_time") rows);
  classification_threshold =
      entry_of (codes "threshold") (get_value (codes "classification_threshold") rows);
  active_model = config.ollama_model;
  embedding_model = config.embedding_model;
}
