-- ===== src/Lib.antt =====
-- The Middle East geopolitical intelligence platform (src/mei): the services of its core, modelled, with
-- the theorems that make them correct.
--
-- The platform collects sources, extracts claims and events from them, has analysts review what the
-- pipeline does not settle, scores risks from indicator readings, tracks scenarios and forecasts, and
-- runs all of this on schedules. The modules follow its parts:
--
--   Common         lists, native numbers, Python's floats, results and the queries on a table
--   Enums          src/mei/shared/enums.py, the enumerations that several parts use
--   Risk           application/services/risk_engine.py, indicators.py and multi_model_review.py, with
--                  infrastructure/repositories/risks.py and indicators.py: weighted indicators make a
--                  base score, a language model may adjust it, the row is appended, and a large move
--                  schedules a shadow review by a second model
--   Ingestion      application/services/source_ingestion.py, infrastructure/repositories/sources.py and
--                  documents.py, infrastructure/collection/dedup.py, and apps/worker/tasks/collect.py of
--                  the root: a URL is fetched, archived, compared with what is there by its address, its
--                  hash and its fingerprint, and cut into chunks
--   Casework       application/services/events.py, claims.py, review.py and entity_resolution.py with
--                  their repositories: one set of tables of events, claims, evidence and queued reviews.
--                  Casework/Extraction is extraction.py, which fills them from what a model reads
--   Scenarios      application/services/scenario_engine.py and infrastructure/repositories/scenarios.py
--   Forecasts      application/services/forecast_audit.py and calibration.py, with
--                  infrastructure/repositories/forecasts.py
--   Scheduler      application/services/scheduler.py and infrastructure/repositories/schedules.py, with
--                  Runs, where rounds of the loop, background tasks and triggers interleave
--   Identity       application/services/identity.py, infrastructure/repositories/identity.py,
--                  infrastructure/auth and shared/security.py
--   Collection     infrastructure/collection/http_fetcher.py, and chunk_text of parser.py
--   Relationships  application/services/relationships.py and infrastructure/repositories/relationships.py
--   Disagreement   application/services/analyst_disagreement.py and
--                  infrastructure/repositories/analyst_assessments.py
--   RateLimiter    infrastructure/llm/rate_limiter.py
--   Monitors       infrastructure/repositories/monitors.py and apps/worker/tasks/dispatch_notifications.py
--                  of the root: conditions on the latest scores, and the alerts that they raise
--   Reports        application/services/report_generator.py and infrastructure/repositories/reports.py,
--                  over the tables of Casework, Risk, Relationships and Scenarios
--   Investigations application/services/investigations.py and
--                  infrastructure/repositories/investigations.py: a question is turned into keywords, what
--                  matches them is compared, and the run ends as completed with a report, or as failed
--   Pipeline       application/services/pipeline_jobs.py: the jobs that run the services of Risk,
--                  Scenarios, Forecasts, Monitors and Reports over everything that is registered, and the
--                  news job, which joins Ingestion and Casework/Extraction
--
-- Paths in this list are below src/mei. Each part has the rows of its tables as records, one function for
-- each query and write of its repository, and one function for each operation of its service, composed as
-- the service composes them. Modules below a part are named for what they prove; its Tests run it.
--
-- Conventions.
--   * A table is the list of its rows, oldest first; the part's store is the record of its tables, passed
--     in and out. SQL leaves the choice among rows with equal keys open; the model takes the first.
--   * An operation that can raise returns a `Result`. Where the store stands inside the result, a call
--     that raises leaves no trace: the session is committed only when the request returns
--     (infrastructure/database/session.py). The risk engine returns its store beside the result, and so
--     does the submission of a URL, which marks the row of a document that it could not fetch: a request
--     then rolls back (`in_request`), a job that goes on keeps the row.
--   * The limits of columns are tested where a model's texts are stored (Casework/Extraction/Columns); the
--     other services are taken to store texts that fit. The collection of actors of an event that was only
--     flushed is taken to be readable.
--   * After a statement that raises, the session answers no other one: this ends the news job and the run
--     of an investigation.
--   * UUIDs, times, dates and intervals are numbers, not negative. The ids that `uuid7` gives to new rows
--     are arguments (`fresh`), and so is the clock (`now`), which is read once for a call.
--   * `float` is a parameter F with its operations (Common.Float); a theorem that needs the order of
--     finite values takes `IsOrdered F`. Common.Fixed is an instance that runs and meets the laws.
--   * A language model, the similarity of names, hashes, the extractor of text, the order of texts in the
--     database, the parsers of dates and of numbers, the messenger, the answers of the database to the
--     statements of an investigation, the decoder of tokens, the resolver of names and the server of a URL
--     are parameters, without laws unless a theorem names them.
--   * `int` is ℤ, or ℕ where the value cannot be negative; Python's integers do not wrap.
--   * Texts that are only shown (prompts, explanations, log lines, messages of errors) are left out; a
--     report keeps the sections that its Markdown is rendered from.
--
-- Loops are recursions on the list that the code iterates. Two loops count: the redirects of a fetch have
-- the bound of the source (MAX_REDIRECTS + 1 = 6) as their measure, and running out of it is the error
-- that the source raises; the retries of a request count down the retries that the source has left. No
-- definition has fuel of its own.
--
-- Not modelled: the routers of apps/api, apps/cli and the tasks of apps/worker that only call a service;
-- imagery and the registry of actors; graph analytics, which are calls of networkx; the crawler of
-- pages and the satellite job; the adapters of language models and of Telegram, translation and storage;
-- migrations, seeds, configuration and logging. Except for the schedules, deletions and the free-form
-- updates that the routers make through the repositories are no steps of the histories.
pub mod Casework
pub mod Collection
pub mod Common
pub mod Disagreement
pub mod Enums
pub mod Forecasts
pub mod Identity
pub mod Ingestion
pub mod Investigations
pub mod Monitors
pub mod Pipeline
pub mod RateLimiter
pub mod Relationships
pub mod Reports
pub mod Risk
pub mod Scenarios
pub mod Scheduler
