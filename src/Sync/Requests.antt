-- ===== src/Sync/Requests.antt =====
-- The bodies of the requests (incidentops/schemas/api.py), and the audit rows of the routes.
use ops_incident_core.Prelude.{ℕ, Option, String, List, [], ◌∷◌, ◌++◌}
use ops_incident_core.Db.{Database, SyncStatus, Counts}
use ops_incident_core.Ingestion.Documents.{NormalizedDocument}

-- The keys of a request's diagnostics that the code reads; `size` is the size of its JSON. The
-- keys that the server itself counts are taken to be absent.
pub record RequestDiagnostics : Type 0 where
  pub size : ℕ
  pub total_files_seen : ℕ
  pub parser_errors : Option ℕ
  pub parser_error_count : Option ℕ
  pub error_count : Option ℕ
  pub files_seen : Option ℕ
  pub files_skipped : Option ℕ
  pub error_message : Option String
  pub source_type_counts : Option Counts
  pub chunk_type_counts : Option Counts

pub record SyncStartRequest : Type 0 where
  pub collector_id : Option ℕ
  pub diagnostics : RequestDiagnostics

-- `status` is `none` for a word outside `SYNC_STATUSES`.
pub record SyncFinishRequest : Type 0 where
  pub status : Option SyncStatus
  pub diagnostics : RequestDiagnostics
  pub coverage_size : ℕ

-- `json_size` is `safe_json_size` of the body; the body of a request came as JSON.
pub record BatchIngestRequest : Type 0 where
  pub sync_id : ℕ
  pub collector_id : Option ℕ
  pub documents : List NormalizedDocument
  pub json_size : ℕ

pub record SyncStatusResponse : Type 0 where
  pub sync_id : ℕ
  pub status : SyncStatus

-- The word for a status in the table and in an audit row.
unfoldable pub status_word : SyncStatus → String
status_word SyncStatus.running = "running"
status_word SyncStatus.success = "success"
status_word SyncStatus.partial_success = "partial_success"
status_word SyncStatus.failed = "failed"
status_word SyncStatus.cancelled = "cancelled"

unfoldable pub record_audit_event : String → String → ℕ → Database → Database
record_audit_event action status resource_id db = record db {
  audit_events =
      db.audit_events
      ++ record { action = action; status = status; resource_id = resource_id } ∷ [];
}
