-- ===== src/Db.antt =====
-- The rows of incidentops/db/models.py that the modelled components read and write, and the
-- queries over a table: select by id, and assignment to the fields of the row with an id.
-- Identifiers, times and version labels are only compared, so they are natural numbers.
mod Table
pub use Table.*
use ops_incident_core.Prelude.{ℕ, Option, String, List}
use ops_incident_core.Prelude.Text.{Text}
use ops_incident_core.Ingestion.Documents.{NormalizedDocument}

-- `IndexJob.status`
pub data IndexStatus : Type 0 where
  pending queued running completed failed stale : IndexStatus

-- `IndexJob.error_code`: the two codes that the worker writes itself, the code of an indexing
-- error, and the lower-cased class name of an exception.
pub data ErrorCode : Type 0 where
  retry_limit_exceeded index_version_changed : ErrorCode
  reported exception_class : ℕ → ErrorCode

-- `normalized_payload` is `normalized_payload_json`, which has the content hash.
pub record IndexJob : Type 0 where
  pub id : ℕ
  pub source_id : ℕ
  pub sync_id : Option ℕ
  pub normalized_payload : NormalizedDocument
  pub index_version : ℕ
  pub status : IndexStatus
  pub attempts : ℕ
  pub error_code : Option ErrorCode
  pub created_at : ℕ
  pub queued_at : Option ℕ
  pub started_at : Option ℕ
  pub finished_at : Option ℕ

-- `Source.status`
pub data SourceStatus : Type 0 where
  created syncing indexing ready error : SourceStatus

-- `SourceSync.status`, the members of `SYNC_STATUSES`
pub data SyncStatus : Type 0 where
  running success partial_success failed cancelled : SyncStatus

-- `Source.last_sync_status`: a sync's status, or one of two words of its own
pub data LastSync : Type 0 where
  sync_status : SyncStatus → LastSync
  running_with_errors indexing : LastSync

pub record Source : Type 0 where
  pub id : ℕ
  pub project_id : ℕ
  pub status : SourceStatus
  pub last_sync_started_at : Option ℕ
  pub last_sync_finished_at : Option ℕ
  pub last_sync_status : Option LastSync
  pub last_error : Option String

-- A dictionary of counts: names with numbers.
abbrev pub Counts : Type 0
Counts = List (Text × ℕ)

-- The `last_batch_...` keys of the diagnostics.
pub record LastBatch : Type 0 where
  pub received : ℕ
  pub created : ℕ
  pub updated : ℕ
  pub skipped_unchanged : ℕ
  pub skipped_invalid : ℕ
  pub chunks_created : ℕ
  pub error_count : ℕ
  pub parser_error_reasons : Counts
  pub chunk_discard_reasons : Counts
  pub embedding_failures : ℕ

-- `SourceSync.diagnostics_json`, less the labels of versions, the warnings and the name of the
-- embedding model. An absent counter is 0, an absent dictionary empty.
pub record Diagnostics : Type 0 where
  pub parser_errors : Option ℕ
  pub parser_error_count : ℕ
  pub error_count : ℕ
  pub files_seen : Option ℕ
  pub files_skipped : Option ℕ
  pub error_message : Option String
  pub index_jobs_queued : ℕ
  pub index_jobs_completed : ℕ
  pub index_jobs_failed : ℕ
  pub documents_created : ℕ
  pub documents_updated : ℕ
  pub skipped_unchanged : ℕ
  pub skipped_invalid : ℕ
  pub embedding_failures : ℕ
  pub parser_error_reasons : Counts
  pub chunk_discard_reasons : Counts
  pub source_type_counts : Counts
  pub chunk_type_counts : Counts
  pub last_batch : Option LastBatch

pub record SourceSync : Type 0 where
  pub id : ℕ
  pub source_id : ℕ
  pub collector_id : Option ℕ
  pub status : SyncStatus
  pub started_at : ℕ
  pub finished_at : Option ℕ
  pub files_seen : ℕ
  pub files_skipped : ℕ
  pub documents_received : ℕ
  pub chunks_created : ℕ
  pub parser_errors : ℕ
  pub error_message : Option String
  pub diagnostics : Diagnostics

-- An audit row: what was done, with which outcome, to which row.
pub record AuditEvent : Type 0 where
  pub action : String
  pub status : String
  pub resource_id : ℕ

-- An operational event: its type and severity.
pub record OperationalEvent : Type 0 where
  pub event_type : String
  pub severity : String

-- The tables that a session reads and writes.
pub record Database : Type 0 where
  pub index_jobs : List IndexJob
  pub syncs : List SourceSync
  pub sources : List Source
  pub audit_events : List AuditEvent
  pub operational_events : List OperationalEvent
