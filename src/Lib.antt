-- ===== src/Lib.antt =====
-- ReviewSignal collects customer reviews of a business from Google Business Profile, stores them, and
-- derives a taxonomy of their topics; a worker runs the long tasks as jobs. This library models the
-- core of the Python program.
--
-- Parts, and the files that model them:
-- * Jobs (workers/reviewsignal_worker/queue.py, runner.py, jobs/): Jobs/Record is the `jobs` table and
--   the RQ queue, Jobs/Queue is `retry_policy` and `enqueue`, Jobs/Runner is `run_job` with its
--   helpers. Handlers, RQ and Redis are parameters. The worker hands a job's type to a handler, and
--   the handlers below raise the exceptions that `run_job` tells apart.
-- * Ingestion (apps/api/reviewsignal_api/services/ingestion.py, integrations/base.py,
--   repositories/reviews.py, repositories/sync_runs.py): Ingestion/Session is the SQLAlchemy session
--   over PostgreSQL, with its flush, commit and rollback, Ingestion/Upsert is `ReviewRepository.upsert`,
--   Ingestion/SyncRuns is `SyncRunRepository`, Ingestion/Service is `IngestionService` over a source.
-- * Google (apps/api/reviewsignal_api/integrations/google/): Google/Mapping is mapping.py, Google/Http
--   is http.py and the request of client.py, Google/Adapter is adapter.py, which gives ingestion its
--   pages, Google/Profile is profile.py.
-- * Credentials (repositories/credentials.py, services/google_token.py): Credentials/Repository and
--   Credentials/Tokens; the cipher and the token endpoint are parameters.
-- * Taxonomy (services/taxonomy_generation.py, ai/ollama.py, jobs/taxonomy.py, db.py of the worker):
--   Taxonomy/Slug is `_unique_slug`, Taxonomy/Provider is `generate_structured`, Taxonomy/Generation
--   and Taxonomy/Job are the service and the job in its `session_scope`.
-- * Evaluation (ai/evaluation/): the metrics, the dataset's validators and the runner. Floats are a
--   parameter with the operations that the metrics use. Evaluation/Job is jobs/evaluation.py of the
--   worker over repositories/evaluation_runs.py, one database session after another, so that the
--   sessions of several attempts can be interleaved; Evaluation/History is services/evaluation.py.
-- * Api (core/errors.py, main.py, core/config.py): the error classes, the exception handlers and the
--   settings.
-- * Auth (core/auth.py, api/v1/auth.py, api/deps.py, api/v1/router.py): Auth/Token is the session
--   token, Auth/Routes the login and the guard in front of the other routers. The HMAC is a parameter.
-- * Connection (services/google_connection.py, api/v1/google.py, jobs/ingest.py): Connection/Oauth is
--   the exchange of a code, Connection/Service and Connection/Discovery the service's other methods
--   on the credentials' table, Connection/Routes the routes with the browser's state cookie and the
--   queueing of jobs, Connection/Ingest the ingestion handlers, which take the credential's token to
--   the ingestion service. Connection/View is the abstract connection that they all refine.
-- * Dashboard (services/taxonomy.py, reviews.py, overview.py, insights.py, trends.py, system.py,
--   health.py, settings.py, with their repositories): the reads, each on the rows of its tables, with
--   its filters and orders. PostgreSQL's `ILIKE`, `date_trunc` and `avg` are parameters.
-- * Tools (tools/check_citations.py, tools/seed_stub_reviews.py): Tools/Scanning is the regular
--   expressions of the citation gate, Tools/Citations and Tools/Sorting the gate itself, on the
--   contents of the files; Tools/Stub is the stub source, from which ingestion can be seeded.
--
-- Conventions. A state is a record that each operation takes and returns; an exception is a value of
-- Base/Exceptions. A datetime is its microseconds, a uuid a number, a text its code points. Only the
-- walk over a source's pages takes fuel as an argument, one unit for each page: a source that never
-- stops issuing cursors never ends, and one that does is given enough by the number of its pages. The
-- slug search runs on as many steps as slugs are in use, the digits of a number on the number, and
-- the slices of the stub source and the days of a trend on the number of reviews.
--
-- Not modelled: the web frontend, the routes that only pass a request to a service, migrations,
-- logging and printing, the random generator of the stub reviews, and a token refresh that overlaps
-- with another request on the same credential.
pub mod Base
pub mod Jobs
pub mod Ingestion
pub mod Google
pub mod Credentials
pub mod Taxonomy
pub mod Tools
pub mod Evaluation
pub mod Api
pub mod Auth
pub mod Connection
pub mod Dashboard
