-- ===== src/Sync/Diagnostics.antt =====
-- The diagnostics of a sync: `_merge_counts`, `_merge_batch_diagnostics`, and the update of the
-- stored dictionary by the one of a request.
use ops_incident_core.Prelude.{
  ℕ, ◌+◌, Option, none, some, List, [], ◌∷◌, map, if◌then◌else◌, non_empty, or_default,
}
use ops_incident_core.Db.{Counts, Diagnostics}
use ops_incident_core.Readiness.Counts.{add_count}
use ops_incident_core.Ingestion.Failures.{failure_reason_counts}
use ops_incident_core.Ingestion.Documents.{DocumentBatchError}
use ops_incident_core.Sync.Requests.{RequestDiagnostics}

unfoldable pub merge_counts : Counts → Counts → Counts
unfolding add_count
merge_counts left [] = left
merge_counts left (e ∷ right) = merge_counts (add_count e.0 e.1 left) right

-- `BatchIngestResult`; an absent `parser_error_reasons` is empty.
pub record ResultDiagnostics : Type 0 where
  pub parser_error_reasons : Counts
  pub parser_error_count : Option ℕ
  pub chunk_discard_reasons : Counts
  pub embedding_failures : ℕ

pub record BatchIngestResult : Type 0 where
  pub received : ℕ
  pub created : ℕ
  pub updated : ℕ
  pub skipped_unchanged : ℕ
  pub skipped_invalid : ℕ
  pub chunks_created : ℕ
  pub errors : List DocumentBatchError
  pub source_type_counts : Counts
  pub chunk_type_counts : Counts
  pub diagnostics : ResultDiagnostics

-- `result.diagnostics.get("parser_error_reasons") or failure_reason_counts(...)`
unfoldable pub error_reasons : BatchIngestResult → Counts
unfolding failure_reason_counts
error_reasons result =
    if non_empty result.diagnostics.parser_error_reasons
    then result.diagnostics.parser_error_reasons
    else failure_reason_counts (map (λ e. some (DocumentBatchError.code e)) result.errors)

unfoldable pub merge_batch_diagnostics : Diagnostics → BatchIngestResult → ℕ → Diagnostics
unfolding merge_counts error_reasons
merge_batch_diagnostics diagnostics result error_count =
    let reasons = error_reasons result in
    record diagnostics {
      last_batch = some (record {
        received = result.received;
        created = result.created;
        updated = result.updated;
        skipped_unchanged = result.skipped_unchanged;
        skipped_invalid = result.skipped_invalid;
        chunks_created = result.chunks_created;
        error_count = error_count;
        parser_error_reasons = reasons;
        chunk_discard_reasons = result.diagnostics.chunk_discard_reasons;
        embedding_failures = result.diagnostics.embedding_failures;
      });
      documents_created = diagnostics.documents_created + result.created;
      documents_updated = diagnostics.documents_updated + result.updated;
      skipped_unchanged = diagnostics.skipped_unchanged + result.skipped_unchanged;
      skipped_invalid = diagnostics.skipped_invalid + result.skipped_invalid;
      error_count = diagnostics.error_count + error_count;
      parser_error_reasons = merge_counts diagnostics.parser_error_reasons reasons;
      parser_error_count =
          diagnostics.parser_error_count
          + or_default result.diagnostics.parser_error_count error_count;
      chunk_discard_reasons =
          merge_counts diagnostics.chunk_discard_reasons result.diagnostics.chunk_discard_reasons;
      embedding_failures = diagnostics.embedding_failures + result.diagnostics.embedding_failures;
      source_type_counts = merge_counts diagnostics.source_type_counts result.source_type_counts;
      chunk_type_counts = merge_counts diagnostics.chunk_type_counts result.chunk_type_counts;
    }

abbrev or_else {ℓ} : {A : Type ℓ} → Option A → Option A → Option A
or_else (some a) b = some a
or_else none b = b

-- `{**diagnostics, **body.diagnostics}`
unfoldable pub update_diagnostics : Diagnostics → RequestDiagnostics → Diagnostics
update_diagnostics diagnostics body = record diagnostics {
  parser_errors = or_else body.parser_errors diagnostics.parser_errors;
  parser_error_count = or_default body.parser_error_count diagnostics.parser_error_count;
  error_count = or_default body.error_count diagnostics.error_count;
  files_seen = or_else body.files_seen diagnostics.files_seen;
  files_skipped = or_else body.files_skipped diagnostics.files_skipped;
  error_message = or_else body.error_message diagnostics.error_message;
  source_type_counts = or_default body.source_type_counts diagnostics.source_type_counts;
  chunk_type_counts = or_default body.chunk_type_counts diagnostics.chunk_type_counts;
}

-- The empty dictionary.
abbrev pub no_diagnostics : Diagnostics
no_diagnostics = record {
  parser_errors = none;
  parser_error_count = 0;
  error_count = 0;
  files_seen = none;
  files_skipped = none;
  error_message = none;
  index_jobs_queued = 0;
  index_jobs_completed = 0;
  index_jobs_failed = 0;
  documents_created = 0;
  documents_updated = 0;
  skipped_unchanged = 0;
  skipped_invalid = 0;
  embedding_failures = 0;
  parser_error_reasons = [];
  chunk_discard_reasons = [];
  source_type_counts = [];
  chunk_type_counts = [];
  last_batch = none;
}
