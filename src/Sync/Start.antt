-- ===== src/Sync/Start.antt =====
-- `start_sync`. The clock is `now` and the new row's identifier is `fresh`.
use ops_incident_core.Prelude.{ℕ, none, some, [], ◌∷◌, ◌++◌}
use ops_incident_core.Settings.{Settings}
use ops_incident_core.Db.{Source, SourceStatus, SourceSync, SyncStatus, LastSync, update_row}
use ops_incident_core.Api.Response.{Response, ◌>>=◌, ◌>>◌, ok}
use ops_incident_core.Api.Store.{Store, get_db}
use ops_incident_core.Api.Access.{authorize, enforce_json_size, validate_collector}
use ops_incident_core.Sync.Requests.{SyncStartRequest, SyncStatusResponse, record_audit_event}
use ops_incident_core.Sync.Diagnostics.{update_diagnostics, no_diagnostics}

-- The new row of `source_syncs`.
unfoldable pub new_sync : ℕ → ℕ → ℕ → SyncStartRequest → SourceSync
unfolding update_diagnostics
new_sync now fresh source_id body = record {
  id = fresh;
  source_id = source_id;
  collector_id = body.collector_id;
  status = SyncStatus.running;
  started_at = now;
  finished_at = none;
  files_seen = body.diagnostics.total_files_seen;
  files_skipped = 0;
  documents_received = 0;
  chunks_created = 0;
  parser_errors = 0;
  error_message = none;
  diagnostics = update_diagnostics no_diagnostics body.diagnostics;
}

unfoldable pub mark_syncing : ℕ → Source → Source
mark_syncing now source = record source {
  status = SourceStatus.syncing;
  last_sync_started_at = some now;
  last_sync_status = some (LastSync.sync_status SyncStatus.running);
  last_error = none;
}

-- After the role check, on the source's row.
unfoldable pub start_checked :
    Settings → ℕ → ℕ → SyncStartRequest → Source → Store → Response (Store × SyncStatusResponse)
unfolding enforce_json_size validate_collector new_sync mark_syncing record_audit_event
start_checked settings now fresh body source store = do
  enforce_json_size body.diagnostics.size settings.max_sync_diagnostics_bytes
  collectors ← validate_collector now source.project_id body.collector_id store.collectors
  let db = store.database
  let db' = record db {
    syncs = db.syncs ++ new_sync now fresh source.id body ∷ [];
    sources = update_row Source.id source.id (mark_syncing now) db.sources;
  }
  ok (
    record store {
      database = record_audit_event "sync_started" "success" fresh db';
      collectors = collectors;
    },
    record { sync_id = fresh; status = SyncStatus.running },
  )

unfoldable pub start_sync :
    Settings → ℕ → ℕ → ℕ → ℕ → SyncStartRequest → Store → Store × Response SyncStatusResponse
unfolding authorize start_checked get_db
start_sync settings now fresh user_id source_id body store =
    let (store', access) = authorize user_id source_id store in
    get_db store' (access >>= λ source. start_checked settings now fresh body source store')
