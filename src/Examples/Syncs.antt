-- ===== src/Examples/Syncs.antt =====
-- A collector's session on a source: a sync is started, gets a batch and is finished, and its
-- job is delivered.
use ops_incident_core.Prelude.{
  ℕ, ◌+◌, ◌≡◌, ◌⊎◌, ◌↔◌, refl, true, false, none, some, List, [], ◌∷◌, arith,
}
use ops_incident_core.Prelude.Text.{
  Text, codes, replace_char, lower, lower_char, starts_with, text_eq,
}
use ops_incident_core.Db.{
  Database, Diagnostics, Source, SourceStatus, SourceSync, SyncStatus, find_row,
}
use ops_incident_core.Security.Roles.{
  ProjectRole, require_project_role, get_project_role, role_allows, role_order,
}
use ops_incident_core.Api.Response.{ok}
use ops_incident_core.Api.Store.{Store, get_db}
use ops_incident_core.Api.Access.{authorize, require_sync, enforce_json_size}
use ops_incident_core.Worker.IndexJob.Row.{indexed}
use ops_incident_core.Worker.IndexJob.Handler.{has_open_jobs, is_attempted}
use ops_incident_core.Ingestion.Documents.{
  DocumentBatchError, NormalizedDocument, valid, validate_normalized_document, first_violation,
  path_is_safe, utf8_length, is_sha256, validate_metadata, looks_binary, normalize_document,
  normalize_content_hash, path_parts, is_digest,
}
use ops_incident_core.Ingestion.Documents.Screening.{IsScreened, validate_normalized_document_lem}
use ops_incident_core.Sync.Requests.{
  RequestDiagnostics, SyncStartRequest, SyncFinishRequest, BatchIngestRequest, SyncStatusResponse,
}
use ops_incident_core.Readiness.Counts.{get_count, add_count}
use ops_incident_core.Retrieval.Words.{strip, strip_left, strip_right}
use ops_incident_core.Ingestion.Failures.Taxonomy.{total}
use ops_incident_core.Ingestion.SourceTypes.{normalize_source_type, resolve_alias, is_one_of_names}
use ops_incident_core.Sync.Diagnostics.{
  BatchIngestResult, no_diagnostics, update_diagnostics, error_reasons, merge_batch_diagnostics,
  merge_counts,
}
use ops_incident_core.Sync.Batch.{queued_result}
use ops_incident_core.Sync.Finish.{finish_sync, finish_open, parser_errors_of, succeeded}
use ops_incident_core.Sync.Lifecycle.Actions.{Action, start, batch, finish, deliver, run}
use ops_incident_core.Sync.Lifecycle.Phases.{finished, phase, ◌⟶*◌, run_refines}
use ops_incident_core.Sync.Endings.{finish_open_lem}
use ops_incident_core.Sync.Repeats.{finish_sync_again}
use ops_incident_core.Sync.Consistency.{AllConsistent, run-AllConsistent}
use ops_incident_core.Sync.Counters.{counted, merge_batch_diagnostics_lem}
use ops_incident_core.Sync.Settling.Tables.{IsSettled}
use ops_incident_core.Sync.Settling.Deliveries.{Delivery, deliver_all}
use ops_incident_core.Sync.Settling.Progress.{deliver_all_settles}
use ops_incident_core.Examples.Rows.{settings, waiting_job, finished_sync, source_with, database}

abbrev store : Store
store = record {
  database = database;
  projects = record { id = 1; demo_mode = false } ∷ [];
  members = record { project_id = 1; user_id = 3; role = ProjectRole.admin } ∷ [];
  collectors = [];
  denials = [];
  buckets = λ user. [];
  refusals = [];
}

abbrev no_request_diagnostics : RequestDiagnostics
no_request_diagnostics = record {
  size = 2;
  total_files_seen = 1;
  parser_errors = none;
  parser_error_count = none;
  error_count = none;
  files_seen = none;
  files_skipped = none;
  error_message = none;
  source_type_counts = none;
  chunk_type_counts = none;
}

abbrev starting : SyncStartRequest
starting = record { collector_id = none; diagnostics = no_request_diagnostics }

abbrev finishing : SyncFinishRequest
finishing = record {
  status = some SyncStatus.success;
  diagnostics = no_request_diagnostics;
  coverage_size = 2;
}

abbrev digest : Text
digest = codes "00112233445566778899aabbccddeeff00112233445566778899aabbccddeeff"

abbrev document : Text → NormalizedDocument
document hash = record {
  external_id = codes "a.md";
  path = codes "docs\\a.md";
  source_type = codes "md";
  content = codes "steps";
  content_hash = hash;
  metadata = record { json_size = some 2; entries = [] };
  size_bytes = none;
  modified_at = none;
}

abbrev ingesting : BatchIngestRequest
ingesting = record {
  sync_id = 8;
  collector_id = none;
  documents = document digest ∷ document digest ∷ [];
  json_size = 500;
}

abbrev indexer : List NormalizedDocument → BatchIngestResult
indexer documents = queued_result documents []

-- The session: the second document has the identifier of the first, so that one job is queued.
abbrev session : List Action
session =
    start 30 8 3 7 starting
    ∷ batch 31 2 3 7 ingesting
    ∷ finish 32 3 7 8 finishing
    ∷ deliver 33 false (indexed 4 []) 2
    ∷ []

run_refines_example :
    (t : SourceSync) × (find_row SourceSync.id 5 (run settings indexer session store).database.syncs
      ≡ some t)
    × (phase finished_sync ⟶* phase t)
    × ((status : SyncStatus) (at : ℕ)
        → phase finished_sync ≡ finished status at
        → phase t ≡ phase finished_sync)
run_refines_example = run_refines settings indexer session store 5 finished_sync refl

run-AllConsistent_example : AllConsistent settings (run settings indexer session store).database
run-AllConsistent_example =
    run-AllConsistent settings indexer (omega arith) session store (ground arith, tt)

abbrev open_sync : SourceSync
open_sync = record finished_sync {
  status = SyncStatus.running;
  finished_at = none;
  parser_errors = 1;
}

abbrev open_database : Database
open_database = record database { syncs = open_sync ∷ [] }

-- An error was counted, so that the success asked for is a partial one.
finish_open_lem_example :
    let source = source_with SourceStatus.syncing in
    let db = record open_database { sources = source ∷ [] } in
    let diagnostics = update_diagnostics open_sync.diagnostics finishing.diagnostics in
    let (db', response) =
      finish_open settings 40 SyncStatus.success finishing source open_sync db in
    (closed : SourceSync) × (source' : Source) × (find_row SourceSync.id 5 db'.syncs ≡ some closed)
    × (find_row Source.id 7 db'.sources ≡ some source')
    × (closed.status ≡ response.status)
    × (closed.finished_at ≡ some 40)
    × ((response.status ≡ SyncStatus.success) ↔ (
        (SyncStatus.success ≡ SyncStatus.success)
        × (parser_errors_of open_sync diagnostics ≡ 0)
        × (diagnostics.error_count ≡ 0)))
    × ((response.status ≡ SyncStatus.success)
        ⊎ ((SyncStatus.success ≡ SyncStatus.success)
            × (response.status ≡ SyncStatus.partial_success)))
    × ((source'.status ≡ SourceStatus.ready) ↔ (
        (succeeded response.status ≡ true)
        × (settings.rag_async_indexing ≡ true → has_open_jobs 5 db.index_jobs ≡ false)))
    × ((source'.status ≡ SourceStatus.error) ↔ (succeeded response.status ≡ false))
finish_open_lem_example =
    finish_open_lem settings 40 SyncStatus.success finishing (source_with SourceStatus.syncing)
      open_sync (record open_database { sources = source_with SourceStatus.syncing ∷ [] }) refl refl

-- The retry of a request that closed a sync.
abbrev closing_store : Store
closing_store = record store { database = open_database }

abbrev partial : SyncStatusResponse
partial = record { sync_id = 5; status = SyncStatus.partial_success }

closes :
    finish_sync settings 40 3 7 5 finishing closing_store
    ≡ ((finish_sync settings 40 3 7 5 finishing closing_store).0, ok partial)
unfolding finish_sync authorize require_project_role get_project_role role_allows role_order
    finish_open update_diagnostics parser_errors_of get_db require_sync enforce_json_size
closes = refl

finish_sync_again_example :
    let after = (finish_sync settings 40 3 7 5 finishing closing_store).0 in
    finish_sync settings 41 3 7 5 finishing after ≡ (after, ok partial)
finish_sync_again_example =
    finish_sync_again settings 40 41 3 7 5 finishing closing_store
      (finish_sync settings 40 3 7 5 finishing closing_store).0 partial closes

abbrev delivery : Delivery
delivery = record { now = 33; index_job_id = 1; chunks_created = 4; errors = [] }

waiting_job_due : is_attempted settings waiting_job ≡ true
unfolding is_attempted
waiting_job_due = refl

is_waiting : has_open_jobs 5 database.index_jobs ≡ true
unfolding has_open_jobs
is_waiting = refl

deliver_all_settles_example :
    (s : Source) × (find_row Source.id 7 (deliver_all settings (delivery ∷ []) database).sources
      ≡ some s)
    × IsSettled s
deliver_all_settles_example =
    deliver_all_settles settings 5 7 (delivery ∷ []) database {sync = finished_sync}
      {source = source_with SourceStatus.indexing} refl refl refl (tt, tt)
      ((λ m. (refl, λ o. (waiting_job_due, refl))), tt) is_waiting

abbrev parse_error : DocumentBatchError
parse_error = record { external_id = none; path = none; code = codes "parse_error" }

-- A sync that has counted two files of code, and a batch with three more and an error.
abbrev counted_before : Diagnostics
counted_before = record no_diagnostics {
  source_type_counts = (codes "code", 2) ∷ [];
  parser_error_reasons = (codes "unknown", 1) ∷ [];
  error_count = 1;
}

abbrev batch_result : BatchIngestResult
batch_result = record (queued_result [] (parse_error ∷ [])) {
  source_type_counts = (codes "code", 3) ∷ [];
}

merge_batch_diagnostics_lem_example :
    let merged = merge_batch_diagnostics counted_before batch_result 1 in
    (get_count (codes "code") merged.source_type_counts
      ≡ get_count (codes "code") counted_before.source_type_counts
        + counted (codes "code") batch_result.source_type_counts)
    × (get_count (codes "code") merged.chunk_type_counts
        ≡ get_count (codes "code") counted_before.chunk_type_counts
          + counted (codes "code") batch_result.chunk_type_counts)
    × (get_count (codes "code") merged.parser_error_reasons
        ≡ get_count (codes "code") counted_before.parser_error_reasons
          + counted (codes "code") (error_reasons batch_result))
    × (get_count (codes "code") merged.chunk_discard_reasons
        ≡ get_count (codes "code") counted_before.chunk_discard_reasons
          + counted (codes "code") batch_result.diagnostics.chunk_discard_reasons)
    × (batch_result.diagnostics.parser_error_reasons ≡ []
        → (total merged.parser_error_reasons ≡ 2) × (merged.error_count ≡ 2))
unfolding queued_result
merge_batch_diagnostics_lem_example =
    merge_batch_diagnostics_lem counted_before batch_result (codes "code")

-- The counts of code add up.
counts_code :
    get_count
      (codes "code")
      (merge_batch_diagnostics counted_before batch_result 1).source_type_counts
    ≡ 5
unfolding get_count merge_batch_diagnostics merge_counts add_count text_eq queued_result
counts_code = refl

abbrev normal_document : NormalizedDocument
normal_document = record (document digest) {
  path = codes "docs/a.md";
  source_type = codes "runbook";
}

passes : validate_normalized_document settings false (document digest) ≡ valid normal_document
unfolding validate_normalized_document first_violation path_is_safe utf8_length is_sha256
    validate_metadata looks_binary replace_char strip strip_left strip_right normalize_document
    normalize_source_type normalize_content_hash lower lower_char path_parts is_digest resolve_alias
    is_one_of_names starts_with text_eq
passes = refl

validate_normalized_document_lem_example : IsScreened settings false normal_document
validate_normalized_document_lem_example =
    validate_normalized_document_lem settings false (document digest) normal_document passes
