-- ===== src/Lib.antt =====
-- IncidentOps Core, modelled and verified: the worker that indexes documents, the checks at its
-- doors, and the path from a question to a cited assessment.
--
-- How the parts work together. A collector starts a sync of a source, posts documents in batches
-- and finishes the sync. The routes check the caller and screen each document, and those that
-- pass become rows of the table of index jobs. A dispatcher publishes the ids of waiting rows to
-- a queue; a worker takes jobs from the queue, runs the handler of each, and retries or records
-- what fails. The handler indexes the document of a row, and settles the sync and the source
-- that the row belongs to. A question is classified by its words; what the search finds for it
-- is packed as evidence within limits; and an investigation turns evidence into hypotheses, a
-- timeline, a confidence and an answer. A readiness report scores what evidence a project has.
-- An agent runs the investigation as a workflow of nodes, and waits for the approval of what it
-- drafted. Operational runs observe the syncs, the index jobs and the evaluations of a project.
-- Requests pass a rate limiter, a login, and a check of the project role; source configurations
-- are screened for secrets.
--
-- Which file models what (paths from the repository's root):
--   Settings, Db              incidentops/config/settings.py and incidentops/db/models.py: the
--                             fields and rows that the other modules read; tables are lists
--   Api                       what routes share: errors and sessions (Response, Store), and the
--                             checks of apps/api/deps.py and apps/api/routes/sources.py (Access)
--   Sync                      apps/api/routes/sources.py: `start_sync` (Start),
--                             `ingest_documents_batch` (Batch, Diagnostics), `finish_sync`
--                             (Finish); requests and deliveries in any order (Lifecycle/Actions)
--   Worker/IndexJob           incidentops/worker/jobs.py, `execute_index_document_job`: the row
--                             (Row), the handler around it (Handler), redelivery (Lifecycle), and
--                             the tables (Sync)
--   Worker/Queue              incidentops/worker/queue.py and schemas.py: the protocol (Job),
--                             `InlineQueue` (Inline) and `RedisQueue` (Redis)
--   Worker/Dispatch           incidentops/worker/index_dispatch.py
--   Worker/Process            incidentops/worker/main.py: `run_worker`, with the dispatcher's call
--                             in each round, and `_process_job`
--   Security/Roles            incidentops/security/permission_policy.py and rbac.py
--   Security/RateLimit        incidentops/security/rate_limit.py, `InMemoryRateLimiter`
--   Security/SourceConfig     incidentops/security/source_config.py
--   Security/Login            incidentops/security/passwords.py and auth.py, and
--                             `get_current_user` of apps/api/deps.py
--   Retrieval/Words, Intent   incidentops/retrieval/query_intent.py
--   Retrieval/Chunk, Compact, incidentops/retrieval/evidence_packer.py, with the screening of
--     Packing                 incidentops/security/prompt_injection.py
--   Retrieval/Hybrid          incidentops/retrieval/hybrid_search.py: the boosts (Sources, Boost),
--                             `_weighted_rrf` (Fusion), and the search (Search)
--   Retrieval/Reranking       incidentops/retrieval/reranker.py, and `remote_rerank` of
--                             model_gateway.py beside it
--   Investigation/Findings    the analyzers of incidentops/investigation (log_analyzer.py,
--                             deploy_analyzer.py, incident_matcher.py, scope_resolver.py)
--   Investigation/Hypotheses  hypothesis_generator.py and root_cause_selector.py of that package
--   Investigation/Timeline    timeline_builder.py of that package
--   Investigation/Confidence, service.py of that package: `_score_confidence`, and `investigate`
--     Service                 from the packed evidence on
--   Ingestion/Chunker         incidentops/ingestion/chunking/chunker.py
--   Ingestion/Failures        incidentops/ingestion/failure_taxonomy.py
--   Ingestion/Documents,      incidentops/ingestion/normalized.py, and `classify_source_type` of
--     SourceTypes             incidentops/ingestion/chunking/metadata.py
--   Agent/Nodes               incidentops/agent/nodes.py, graph.py (the sequential engine), and
--                             `execute_node_with_observability` of service.py
--   Agent/Runs                incidentops/agent/service.py: runs, approvals and decisions
--   Readiness                 incidentops/readiness/service.py: `_normalized_counts` and
--                             `_coverage` (Counts), `_score` and `_grade` (Score), the lists (Report)
--   Operations                incidentops/operations/service.py (Runs, Observer, Agents), the
--                             handlers of incidentops/worker/jobs.py that run it, and
--                             `_enqueue` of apps/api/routes/operations.py (Jobs)
--   Prelude                   tests on numbers, lists, stable sorting, text, signed integers
--   Examples                  concrete inputs, tests and applications of the theorems
-- A function keeps its name of the source, less a leading underscore. What a module proves stands
-- in its child modules.
--
-- State and effects. A session's tables are a record that a handler takes and returns with every
-- row that it writes; a row lock is a Boolean (one row) or a test (many). A queue is a record of
-- operations over a state of its own. An exception is a value: `IndexOutcome` for the indexer,
-- `Outcome` for a job's execution, `Access` and `Session` for HTTP errors, `Response` for a
-- route, whose session rolls back what a refused request has written. Identifiers and times are
-- natural numbers; scores that can fall below zero are integers, and fractions are hundredths
-- or, for the scores of a search, millionths in the search itself and thousandths after it.
--
-- Parameters, each code outside the repository or run by an engine outside it: the five commands
-- of the Redis server, bcrypt and SHA-256 (a password passes against its own hash), the JWT
-- library (a token decodes to its claims from the time at which it was issued until it expires),
-- the regular-expression searches of the secret patterns and of the log and deploy analyzers,
-- the substitutions of `redact_secrets`, the branches of a search with what the query's
-- expressions find, the reranking model of the process, and what the remote reranker's server
-- answers. What the table of index jobs is when the dispatcher reads it in a worker's round is
-- an argument. The indexer's outcome, the result of a batch that is indexed at once, and the
-- outcome of a job's execution are arguments, so that what is said holds for all of them; so is
-- which attempt of which node of a workflow raises.
--
-- Bounds and fuel. The worker runs a list of rounds, in each of which the dispatcher may publish
-- jobs; as many rounds as the queued jobs and those published meanwhile have executions left are
-- enough, since the attempt number in the payload bounds the retries. The splitting of a text is
-- given rounds; one for each word and one more are enough where a window is longer than the
-- overlap. Everything else is recursion on lists. Upper and lower case and white space are those
-- of ASCII; 1.3 tokens for a word is exact.
--
-- Not modelled: the handlers of workflow and evaluation jobs, the LangGraph engine and the
-- persistence of drafts, the routes but those of a sync and of the operational runs, the queries
-- of a search's branches, embeddings and the vector store, parsers and the collector, the
-- summary of the readiness report and the queries that load it, and the web client. The jobs of
-- one batch, which the worker gathers, run one after another here. Index jobs are the only rows
-- that the modelled handlers and the dispatcher lock: two sessions on one of them are kept apart
-- by the lock. The rows of syncs and of sources are not locked by the code; requests and
-- deliveries that meet on them are taken one after another here, so races between them are not
-- covered.
pub mod Prelude
pub mod Db
pub mod Settings
pub mod Worker
pub mod Security
pub mod Readiness
pub mod Retrieval
pub mod Investigation
pub mod Ingestion
pub mod Agent
pub mod Api
pub mod Sync
pub mod Operations
pub mod Examples
