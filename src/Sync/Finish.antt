-- ===== src/Sync/Finish.antt =====
-- `finish_sync`. The clock is `now`.
use ops_incident_core.Prelude.{
  ℕ, max, Bool, true, false, ◌&&◌, ◌||◌, Option, none, some, String, List, if◌then◌else◌, ltb,
  is_some, or_default, non_empty, length, select,
}
use ops_incident_core.Prelude.Text.{codes}
use ops_incident_core.Settings.{Settings}
use ops_incident_core.Db.{
  Database, Diagnostics, IndexJob, Source, SourceStatus, SourceSync, SyncStatus, LastSync,
  update_row,
}
use ops_incident_core.Worker.IndexJob.Handler.{in_sync, is_open}
use ops_incident_core.Api.Response.{Response, HttpError, ◌>>=◌, ◌>>◌, ok, err}
use ops_incident_core.Api.Store.{Store, get_db}
use ops_incident_core.Api.Access.{authorize, enforce_json_size, require_sync}
use ops_incident_core.Sync.Requests.{
  SyncFinishRequest, SyncStatusResponse, status_word, record_audit_event,
}
use ops_incident_core.Sync.Diagnostics.{update_diagnostics}

abbrev pub same_status : SyncStatus → SyncStatus → Bool
same_status SyncStatus.running SyncStatus.running = true
same_status SyncStatus.success SyncStatus.success = true
same_status SyncStatus.partial_success SyncStatus.partial_success = true
same_status SyncStatus.failed SyncStatus.failed = true
same_status SyncStatus.cancelled SyncStatus.cancelled = true
same_status _ _ = false

-- The request repeats how the sync has ended.
abbrev pub repeats : SyncStatus → SyncStatus → Bool
repeats stored requested =
    same_status stored requested
    || same_status stored SyncStatus.partial_success && same_status requested SyncStatus.success

abbrev pub succeeded : SyncStatus → Bool
succeeded status =
    same_status status SyncStatus.success || same_status status SyncStatus.partial_success

-- The largest of the three counts of parser errors.
unfoldable pub parser_errors_of : SourceSync → Diagnostics → ℕ
parser_errors_of sync diagnostics =
    max (max sync.parser_errors (or_default diagnostics.parser_errors sync.parser_errors))
      diagnostics.parser_error_count

unfoldable pub effective_status : SyncStatus → SourceSync → Diagnostics → SyncStatus
unfolding parser_errors_of
effective_status requested sync diagnostics =
    if same_status requested SyncStatus.success
      && (ltb 0 sync.parser_errors
          || ltb 0 (parser_errors_of sync diagnostics)
          || ltb 0 diagnostics.error_count)
    then SyncStatus.partial_success
    else requested

-- `diagnostics.get("error_message") or (...)`
unfoldable pub error_message_of : SyncStatus → Option String → Option String
unfolding status_word
error_message_of status message =
    if is_some message && non_empty (codes (or_default message ""))
    then message
    else if same_status status SyncStatus.failed || same_status status SyncStatus.cancelled
    then some (status_word status)
    else none

-- `select(func.count()).where(IndexJob.sync_id == sync.id, IndexJob.status.in_(...))`
unfoldable pub count_open_jobs : ℕ → List IndexJob → ℕ
count_open_jobs k jobs = length (select (λ j. in_sync k j.sync_id && is_open j.status) jobs)

-- Counted only where indexing is asynchronous.
abbrev pub pending_index_jobs : Settings → ℕ → List IndexJob → Option ℕ
pending_index_jobs settings k jobs =
    if settings.rag_async_indexing then some (count_open_jobs k jobs) else none

-- The row of the sync. The count of open jobs is put into the diagnostics in place, when the row
-- has been written already: the row never gets it.
unfoldable pub close_sync : ℕ → SyncStatus → Diagnostics → SourceSync → SourceSync
unfolding effective_status parser_errors_of error_message_of
close_sync now requested diagnostics sync =
    let status = effective_status requested sync diagnostics in
    record sync {
      status = status;
      finished_at = some now;
      files_seen = or_default diagnostics.files_seen sync.files_seen;
      files_skipped = or_default diagnostics.files_skipped sync.files_skipped;
      parser_errors = parser_errors_of sync diagnostics;
      error_message = error_message_of status diagnostics.error_message;
      diagnostics = diagnostics;
    }

-- The row of the source, from the row of the sync as it is closed.
unfoldable pub close_source : ℕ → SourceSync → Source → Source
close_source pending sync source = record source {
  status =
      if ltb 0 pending && succeeded sync.status
      then SourceStatus.indexing
      else if succeeded sync.status
      then SourceStatus.ready
      else SourceStatus.error;
  last_sync_started_at = some sync.started_at;
  last_sync_finished_at = sync.finished_at;
  last_sync_status =
      some (if ltb 0 pending then LastSync.indexing else LastSync.sync_status sync.status);
  last_error = sync.error_message;
}

-- What is written when an open sync is finished.
unfoldable pub finish_open :
    Settings
    → ℕ
    → SyncStatus
    → SyncFinishRequest
    → Source
    → SourceSync
    → Database
    → Database × SyncStatusResponse
unfolding update_diagnostics count_open_jobs close_sync close_source record_audit_event
finish_open settings now requested body source sync db =
    let diagnostics = update_diagnostics sync.diagnostics body.diagnostics in
    let pending = pending_index_jobs settings sync.id db.index_jobs in
    let closed = close_sync now requested diagnostics sync in
    let db' = record db {
      syncs = update_row SourceSync.id sync.id (λ _. closed) db.syncs;
      sources =
          update_row Source.id source.id (close_source (or_default pending 0) closed) db.sources;
    } in
    let action =
      if same_status closed.status SyncStatus.failed then "sync_failed" else "sync_finished" in
    (
      record_audit_event action (status_word closed.status) sync.id db',
      record { sync_id = sync.id; status = closed.status },
    )

-- The two endings of a request on a sync that is finished.
unfoldable pub finish_again : SyncStatus → SourceSync → Response SyncStatusResponse
finish_again requested sync =
    if repeats sync.status requested
    then ok (record { sync_id = sync.id; status = sync.status })
    else err HttpError.conflict

-- `body.status not in SYNC_STATUSES - {"running"}`
unfoldable pub final_status : Option SyncStatus → Response SyncStatus
final_status none = err HttpError.bad_request
final_status (some status) =
    if same_status status SyncStatus.running then err HttpError.bad_request else ok status

unfoldable pub finish_found :
    Settings
    → ℕ
    → SyncStatus
    → SyncFinishRequest
    → Source
    → SourceSync
    → Store
    → Response (Store × SyncStatusResponse)
unfolding finish_again finish_open
finish_found settings now requested body source sync store =
    if is_some sync.finished_at
    then (finish_again requested sync >>= λ response. ok (store, response))
    else let (db, response) = finish_open settings now requested body source sync store.database in
      ok (record store { database = db }, response)

unfoldable pub finish_checked :
    Settings → ℕ → ℕ → SyncFinishRequest → Source → Store → Response (Store × SyncStatusResponse)
unfolding enforce_json_size require_sync final_status finish_found
finish_checked settings now sync_id body source store = do
  enforce_json_size body.diagnostics.size settings.max_sync_diagnostics_bytes
  enforce_json_size body.coverage_size settings.max_sync_diagnostics_bytes
  sync ← require_sync sync_id source.id store.database.syncs
  requested ← final_status body.status
  finish_found settings now requested body source sync store

unfoldable pub finish_sync :
    Settings → ℕ → ℕ → ℕ → ℕ → SyncFinishRequest → Store → Store × Response SyncStatusResponse
unfolding authorize finish_checked get_db
finish_sync settings now user_id source_id sync_id body store =
    let (store', access) = authorize user_id source_id store in
    get_db store' (access >>= λ source. finish_checked settings now sync_id body source store')
