-- ===== src/Sync/Batch.antt =====
-- `ingest_documents_batch`. The clock is `now`, the identifiers of new jobs count from `fresh` on,
-- and `indexer` is the result of `index_normalized_documents`, which the request waits for where
-- indexing is not asynchronous.
use ops_incident_core.Prelude.{
  ℕ, ◌+◌, Bool, false, ◌&&◌, Option, none, some, List, [], ◌∷◌, ◌++◌, any, if◌then◌else◌, leb,
  length, non_empty,
}
use ops_incident_core.Prelude.Text.{Text, codes, text_eq}
use ops_incident_core.Settings.{Settings}
use ops_incident_core.Db.{
  Database, IndexJob, IndexStatus, Source, SourceSync, SyncStatus, LastSync, OperationalEvent,
  update_row,
}
use ops_incident_core.Ingestion.Documents.{
  NormalizedDocument, DocumentBatchError, valid, invalid, validate_normalized_document,
}
use ops_incident_core.Api.Response.{Response, HttpError, ◌>>=◌, ◌>>◌, ok, err, guard}
use ops_incident_core.Api.Store.{Store, get_db}
use ops_incident_core.Api.Access.{
  authorize, check_rate_limit, require_sync, validate_collector, validate_sync_collector,
}
use ops_incident_core.Sync.Requests.{BatchIngestRequest, record_audit_event}
use ops_incident_core.Sync.Diagnostics.{BatchIngestResult, merge_batch_diagnostics}
use ops_incident_core.Sync.Finish.{same_status}

pub data Screened : Type 0 where
  accepted : NormalizedDocument → Screened
  rejected : DocumentBatchError → Screened

abbrev pub duplicate_of : NormalizedDocument → DocumentBatchError
duplicate_of document = record {
  external_id = some document.external_id;
  path = some document.path;
  code = codes "duplicate_external_id";
}

-- One turn of the loop: `seen` are the identifiers accepted before.
unfoldable pub screen : Settings → List Text → NormalizedDocument → Screened
unfolding validate_normalized_document text_eq
screen settings seen document = elim (validate_normalized_document settings false document) [
  | invalid e ↦ rejected e
  | valid v ↦ if any (text_eq v.external_id) seen then rejected (duplicate_of v) else accepted v
]

-- The documents to queue and the errors, each in the order of the batch.
unfoldable pub validate_batch :
    Settings
    → List Text
    → List NormalizedDocument
    → List NormalizedDocument × List DocumentBatchError
unfolding screen
validate_batch settings seen [] = ([], [])
validate_batch settings seen (document ∷ documents) = elim (screen settings seen document) [
  | accepted v ↦
      let rest = validate_batch settings (v.external_id ∷ seen) documents in (v ∷ rest.0, rest.1)
  | rejected e ↦ let rest = validate_batch settings seen documents in (rest.0, e ∷ rest.1)
]

-- The row of one document and the rows of a batch, with the defaults of the columns.
abbrev pub new_job : Settings → ℕ → ℕ → ℕ → ℕ → NormalizedDocument → IndexJob
new_job settings now fresh source_id sync_id document = record {
  id = fresh;
  source_id = source_id;
  sync_id = some sync_id;
  normalized_payload = document;
  index_version = settings.vector_index_version;
  status = IndexStatus.pending;
  attempts = 0;
  error_code = none;
  created_at = now;
  queued_at = none;
  started_at = none;
  finished_at = none;
}

unfoldable pub new_jobs : Settings → ℕ → ℕ → ℕ → ℕ → List NormalizedDocument → List IndexJob
new_jobs settings now fresh source_id sync_id [] = []
new_jobs settings now fresh source_id sync_id (d ∷ ds) =
    new_job settings now fresh source_id sync_id d
    ∷ new_jobs settings now (fresh + 1) source_id sync_id ds

-- The result of a batch whose documents wait for the workers.
unfoldable pub queued_result : List NormalizedDocument → List DocumentBatchError → BatchIngestResult
queued_result documents errors = record {
  received = length documents;
  created = 0;
  updated = 0;
  skipped_unchanged = 0;
  skipped_invalid = length errors;
  chunks_created = 0;
  errors = errors;
  source_type_counts = [];
  chunk_type_counts = [];
  diagnostics = record {
    parser_error_reasons = [];
    parser_error_count = none;
    chunk_discard_reasons = [];
    embedding_failures = 0;
  };
}

-- The result and the jobs to queue, by `settings.rag_async_indexing`.
unfoldable pub ingest :
    Settings
    → ℕ
    → ℕ
    → (List NormalizedDocument → BatchIngestResult)
    → ℕ
    → ℕ
    → List NormalizedDocument
    → BatchIngestResult × List IndexJob
unfolding validate_batch new_jobs queued_result
ingest settings now fresh indexer source_id sync_id documents =
    if settings.rag_async_indexing
    then (let (validated, errors) = validate_batch settings [] documents in
        (queued_result documents errors, new_jobs settings now fresh source_id sync_id validated))
    else (indexer documents, [])

-- The counters of the sync, with the collector that the body names if the row has none.
abbrev pub first_collector : Option ℕ → Option ℕ → Option ℕ
first_collector (some k) body = some k
first_collector none body = body

unfoldable pub count_batch : BatchIngestRequest → BatchIngestResult → ℕ → SourceSync → SourceSync
unfolding merge_batch_diagnostics
count_batch body result queued sync =
    let merged = merge_batch_diagnostics sync.diagnostics result (length result.errors) in
    record sync {
      collector_id = first_collector sync.collector_id body.collector_id;
      documents_received = sync.documents_received + length body.documents;
      chunks_created = sync.chunks_created + result.chunks_created;
      parser_errors = sync.parser_errors + length result.errors;
      diagnostics = record merged { index_jobs_queued = merged.index_jobs_queued + queued };
    }

unfoldable pub mark_errors : Bool → Source → Source
mark_errors failing source =
    if failing
    then record source { last_sync_status = some LastSync.running_with_errors }
    else source

-- The rows of the audit log and of the operational events.
unfoldable pub log_batch : Bool → ℕ → Database → Database
unfolding record_audit_event
log_batch failing source_id db =
    let event : OperationalEvent = record {
      event_type = "documents_batch_completed";
      severity = if failing then "medium" else "info";
    } in
    let recorded =
      record_audit_event "documents_batch_ingested" (if failing then "partial" else "success")
        source_id (record db { operational_events = db.operational_events ++ event ∷ [] }) in
    if failing
    then record_audit_event "documents_batch_partially_failed" "partial" source_id recorded
    else recorded

unfoldable pub write_batch :
    BatchIngestRequest
    → BatchIngestResult
    → List IndexJob
    → Source
    → SourceSync
    → Database
    → Database
unfolding count_batch mark_errors log_batch
write_batch body result jobs source sync db =
    let failing = non_empty result.errors in
    log_batch failing source.id (record db {
      index_jobs = db.index_jobs ++ jobs;
      syncs = update_row SourceSync.id sync.id (count_batch body result (length jobs)) db.syncs;
      sources =
          update_row Source.id source.id
            (mark_errors (failing && same_status sync.status SyncStatus.running)) db.sources;
    })

-- After the role check and the rate limit. The response is the result of the batch.
unfoldable pub ingest_checked :
    Settings
    → ℕ
    → ℕ
    → (List NormalizedDocument → BatchIngestResult)
    → BatchIngestRequest
    → Source
    → Store
    → Response (Store × BatchIngestResult)
unfolding require_sync validate_collector validate_sync_collector ingest write_batch
ingest_checked settings now fresh indexer body source store = do
  sync ← require_sync body.sync_id source.id store.database.syncs
  collectors ← validate_collector now source.project_id body.collector_id store.collectors
  validate_sync_collector sync body.collector_id
  guard (leb (length body.documents) settings.max_documents_per_batch) HttpError.too_large
  guard (leb body.json_size settings.max_batch_bytes) HttpError.too_large
  let (result, jobs) = ingest settings now fresh indexer source.id sync.id body.documents
  ok (
    record store {
      database = write_batch body result jobs source sync store.database;
      collectors = collectors;
    },
    result,
  )

-- The rate limit counts the requests of those who may send them; its window is an hour.
unfoldable pub limit_batches :
    Settings → ℕ → ℕ → Response Source → Store → Store × Response (Unit {0})
unfolding check_rate_limit
limit_batches settings now user_id (ok source) store =
    check_rate_limit settings now settings.collector_batch_request_limit 3600 user_id store
limit_batches settings now user_id (err e) store = (store, err e)

unfoldable pub ingest_documents_batch :
    Settings
    → ℕ
    → ℕ
    → (List NormalizedDocument → BatchIngestResult)
    → ℕ
    → ℕ
    → BatchIngestRequest
    → Store
    → Store × Response BatchIngestResult
unfolding authorize limit_batches ingest_checked get_db
ingest_documents_batch settings now fresh indexer user_id source_id body store =
    let (store', access) = authorize user_id source_id store in
    let (store'', admitted) = limit_batches settings now user_id access store' in
    get_db store''
      (do source ← access; admitted; ingest_checked settings now fresh indexer body source store'')
