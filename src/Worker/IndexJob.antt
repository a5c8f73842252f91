-- ===== src/Worker/IndexJob.antt =====
-- The execution of one durable index job: `execute_index_document_job` of
-- incidentops/worker/jobs.py. Parsing, embedding and publication of the document are the
-- argument `outcome`, the clock is `now`, and `locked` says that another session holds the row.
pub mod Row
pub mod Lifecycle
pub mod Handler
pub mod Sync
