-- ===== src/Examples/Rows.antt =====
-- Settings and rows: a source with one finished sync, whose one job waits.
use ops_incident_core.Prelude.{true, false, none, some, [], ◌∷◌}
use ops_incident_core.Settings.{Settings}
use ops_incident_core.Prelude.Text.{codes}
use ops_incident_core.Ingestion.Documents.{NormalizedDocument}
use ops_incident_core.Db.{
  IndexJob, IndexStatus, Source, SourceStatus, SourceSync, SyncStatus, Diagnostics, Database,
}

abbrev pub settings : Settings
settings = record {
  rag_async_indexing = true;
  rag_index_max_retries = 3;
  rag_index_dispatch_batch_size = 100;
  job_queue_claim_idle_ms = 60000;
  vector_index_version = 2;
  worker_concurrency = 2;
  worker_job_max_retries = 1;
  workflow_run_timeout_seconds = 300;
  eval_run_timeout_seconds = 600;
  operational_agent_timeout_seconds = 60;
  index_job_timeout_seconds = 300;
  rag_remote_timeout_seconds = 10;
  workflow_max_retries = 2;
  max_sync_diagnostics_bytes = 65536;
  max_documents_per_batch = 2;
  max_batch_bytes = 1000000;
  max_external_id_length = 512;
  max_path_length = 1024;
  max_document_bytes = 1000;
  max_metadata_bytes = 1000;
  collector_batch_request_limit = 3;
  rate_limit_enabled = true;
  is_production_like = true;
  demo_mode_public = false;
  allow_demo_project_bypass = false;
}

abbrev log_document : NormalizedDocument
log_document = record {
  external_id = codes "logs/app.log";
  path = codes "logs/app.log";
  source_type = codes "logs";
  content = codes "checkout took 900ms";
  content_hash = codes "sha256:0";
  metadata = record { json_size = some 2; entries = [] };
  size_bytes = none;
  modified_at = none;
}

abbrev pub waiting_job : IndexJob
waiting_job = record {
  id = 1;
  source_id = 7;
  sync_id = some 5;
  normalized_payload = log_document;
  index_version = 2;
  status = IndexStatus.pending;
  attempts = 0;
  error_code = none;
  created_at = 10;
  queued_at = none;
  started_at = none;
  finished_at = none;
}

abbrev pub diagnostics : Diagnostics
diagnostics = record {
  parser_errors = none;
  parser_error_count = 0;
  error_count = 0;
  files_seen = none;
  files_skipped = none;
  error_message = none;
  index_jobs_queued = 1;
  index_jobs_completed = 0;
  index_jobs_failed = 0;
  documents_created = 0;
  documents_updated = 0;
  skipped_unchanged = 0;
  skipped_invalid = 0;
  embedding_failures = 0;
  parser_error_reasons = [];
  chunk_discard_reasons = [];
  source_type_counts = [];
  chunk_type_counts = [];
  last_batch = none;
}

abbrev pub finished_sync : SourceSync
finished_sync = record {
  id = 5;
  source_id = 7;
  collector_id = none;
  status = SyncStatus.success;
  started_at = 5;
  finished_at = some 20;
  files_seen = 1;
  files_skipped = 0;
  documents_received = 1;
  chunks_created = 0;
  parser_errors = 0;
  error_message = none;
  diagnostics = diagnostics;
}

abbrev pub source_with : SourceStatus → Source
source_with status = record {
  id = 7;
  project_id = 1;
  status = status;
  last_sync_started_at = some 5;
  last_sync_finished_at = some 20;
  last_sync_status = none;
  last_error = none;
}

abbrev pub database : Database
database = record {
  index_jobs = waiting_job ∷ [];
  syncs = finished_sync ∷ [];
  sources = source_with SourceStatus.indexing ∷ [];
  audit_events = [];
  operational_events = [];
}
