-- ===== src/Sync/Counters.antt =====
-- The counters that a sync keeps over its batches.
use ops_incident_core.Prelude.{
  ℕ, ◌+◌, ◌≡◌, [], ◌∷◌, arith, map, length, length-map, if◌then◌else◌, some, ◌∙◌,
}
use ops_incident_core.Prelude.Text.{Text, text_eq}
use ops_incident_core.Db.{Counts, Diagnostics}
use ops_incident_core.Readiness.Counts.{add_count, get_count}
use ops_incident_core.Readiness.Counts.Laws.{get_count-add_count}
use ops_incident_core.Ingestion.Failures.Taxonomy.{total, failure_reason_counts_lem}
use ops_incident_core.Ingestion.Documents.{DocumentBatchError}
use ops_incident_core.Sync.Diagnostics.{
  BatchIngestResult, merge_counts, error_reasons, merge_batch_diagnostics,
}

-- What a dictionary counts under a name.
abbrev pub counted : Text → Counts → ℕ
counted k [] = 0
counted k (e ∷ counts) = (if text_eq e.0 k then e.1 else 0) + counted k counts

get_count-merge_counts :
    (k : Text) (left right : Counts)
    → get_count k (merge_counts left right) ≡ get_count k left + counted k right
unfolding merge_counts
get_count-merge_counts k left [] = omega arith
get_count-merge_counts k left (e ∷ right) = omega (
  arith,
  get_count-merge_counts k (add_count e.0 e.1 left) right,
  get_count-add_count e.0 k e.1 left,
)

total-add_count :
    (k : Text) (n : ℕ) (counts : Counts) → total (add_count k n counts) ≡ n + total counts
unfolding add_count
total-add_count k n [] = omega arith
total-add_count k n (e ∷ counts) = ground (arith, total-add_count k n counts)

total-merge_counts :
    (left right : Counts) → total (merge_counts left right) ≡ total left + total right
unfolding merge_counts
total-merge_counts left [] = omega arith
total-merge_counts left (e ∷ right) =
    omega (arith, total-merge_counts (add_count e.0 e.1 left) right, total-add_count e.0 e.1 left)

total-error_reasons :
    (result : BatchIngestResult)
    → result.diagnostics.parser_error_reasons ≡ []
    → total (error_reasons result) ≡ length result.errors
unfolding error_reasons
total-error_reasons result h =
    let reason = λ (e : DocumentBatchError). some e.code in
    rw h
      ((failure_reason_counts_lem (map reason result.errors)).1 ∙ length-map result.errors reason)

-- A batch adds to what the sync has counted: under every name of the four dictionaries the count
-- grows by what the batch has counted under it. Where the indexer gives no reasons of its own,
-- the counts of the reasons together grow by the number of errors, as the counter of errors does.
pub merge_batch_diagnostics_lem :
    (diagnostics : Diagnostics) (result : BatchIngestResult) (k : Text)
    → let merged = merge_batch_diagnostics diagnostics result (length result.errors) in
      (get_count k merged.source_type_counts
        ≡ get_count k diagnostics.source_type_counts + counted k result.source_type_counts)
      × (get_count k merged.chunk_type_counts
          ≡ get_count k diagnostics.chunk_type_counts + counted k result.chunk_type_counts)
      × (get_count k merged.parser_error_reasons
          ≡ get_count k diagnostics.parser_error_reasons + counted k (error_reasons result))
      × (get_count k merged.chunk_discard_reasons
          ≡ get_count k diagnostics.chunk_discard_reasons
            + counted k result.diagnostics.chunk_discard_reasons)
      × (result.diagnostics.parser_error_reasons ≡ []
          → (total merged.parser_error_reasons
              ≡ total diagnostics.parser_error_reasons + length result.errors)
            × (merged.error_count ≡ diagnostics.error_count + length result.errors))
unfolding merge_batch_diagnostics
merge_batch_diagnostics_lem diagnostics result k = (
  get_count-merge_counts k diagnostics.source_type_counts result.source_type_counts,
  get_count-merge_counts k diagnostics.chunk_type_counts result.chunk_type_counts,
  get_count-merge_counts k diagnostics.parser_error_reasons (error_reasons result),
  get_count-merge_counts k diagnostics.chunk_discard_reasons
      result.diagnostics.chunk_discard_reasons,
  λ h. (
    omega (
      arith,
      total-merge_counts diagnostics.parser_error_reasons (error_reasons result),
      total-error_reasons result h,
    ),
    omega arith,
  ),
)
