-- ===== src/Examples/Reports.antt =====
-- Failure reports, the splitting of texts, and readiness reports.
use ops_incident_core.Prelude.{
  ℕ, ◌-◌, ◌≡◌, refl, min, true, false, Option, none, some, List, [], ◌∷◌, arith, if◌then◌else◌,
  ◌==◌, All, any,
}
use ops_incident_core.Prelude.Text.{Text, codes, text_eq}
use ops_incident_core.Prelude.Int.{max_ℤ, min_ℤ, ◌-ℤ◌}
use ops_incident_core.Db.{SyncStatus}
use ops_incident_core.Ingestion.Chunker.{split_text_by_tokens, words_of, split_from}
use ops_incident_core.Ingestion.Chunker.Windows.{
  IsSplit, split_text_by_tokens_lem, split_text_by_tokens_loops,
}
use ops_incident_core.Ingestion.Failures.{normalize_failure_code, aliases}
use ops_incident_core.Ingestion.Failures.Taxonomy.{is_reason, normalize_failure_code_lem, raw_code}
use ops_incident_core.Readiness.Counts.{Counter}
use ops_incident_core.Readiness.Score.{
  Coverage, Snapshot, score, grade, excellent, evidence_score, raw_score, weight, after_sync,
  after_latest, after_errors, after_chunks, after_static, parser_penalty, is_static_only,
}
use ops_incident_core.Readiness.Score.Bounds.{deductions, score_lem}

abbrev words : List ℕ
words = 1 ∷ 2 ∷ 3 ∷ 4 ∷ 5 ∷ 6 ∷ []

split_text_by_tokens_lem_example :
    (chunks : List (List ℕ)) × (split_text_by_tokens 4 2 words 7 ≡ some chunks)
    × IsSplit (words_of 4) (words_of 4 - words_of 2) words chunks
split_text_by_tokens_lem_example = split_text_by_tokens_lem 4 2 words (ground arith) (ground arith)

-- The last chunk repeats words that the one before it has.
splits :
    split_text_by_tokens 4 2 words 7
    ≡ some ((1 ∷ 2 ∷ 3 ∷ []) ∷ (3 ∷ 4 ∷ 5 ∷ []) ∷ (5 ∷ 6 ∷ []) ∷ [])
unfolding split_text_by_tokens split_from
splits = refl

split_text_by_tokens_loops_example : split_text_by_tokens 2 2 words 1000 ≡ none
split_text_by_tokens_loops_example =
    split_text_by_tokens_loops 2 2 words 1000 (ground arith) (ground arith)

normalize_failure_code_lem_example :
    (is_reason (normalize_failure_code (some (codes "Parse_Error"))) ≡ true)
    × (is_reason (raw_code (some (codes "Parse_Error"))) ≡ true
        → normalize_failure_code (some (codes "Parse_Error"))
          ≡ raw_code (some (codes "Parse_Error")))
    × All
        (λ entry.
          raw_code (some (codes "Parse_Error")) ≡ codes entry.0
          → normalize_failure_code (some (codes "Parse_Error")) ≡ codes entry.1)
        aliases
    × (is_reason (raw_code (some (codes "Parse_Error"))) ≡ false
        → any (λ entry. text_eq (raw_code (some (codes "Parse_Error"))) (codes entry.0)) aliases
          ≡ false
        → normalize_failure_code (some (codes "Parse_Error")) ≡ codes "unknown")
    × (normalize_failure_code (some (normalize_failure_code (some (codes "Parse_Error"))))
        ≡ normalize_failure_code (some (codes "Parse_Error")))
normalize_failure_code_lem_example = normalize_failure_code_lem (some (codes "Parse_Error"))

abbrev failed : List (Option Text)
failed = some (codes "parse_error") ∷ none ∷ some (codes "parser_exception") ∷ []

abbrev counts : Counter
counts = (codes "log", 2) ∷ (codes "logs", 3) ∷ (codes "code", 1) ∷ []

abbrev full : Coverage
full = record {
  has_code = true;
  has_docs = true;
  has_logs = true;
  has_deploys = true;
  has_runbooks = true;
  has_incidents = true;
  has_api_docs = true;
  has_configs = true;
}

abbrev snapshot : Snapshot
snapshot = record {
  source_count = 1;
  document_count = 4;
  chunk_count = 9;
  successful_syncs = 1;
  latest_sync = some (record { status = SyncStatus.success; parser_errors = 0 });
}

score_lem_example :
    let rest = evidence_score full - deductions snapshot in
    (score snapshot full).0 ≡ min 100 (if snapshot.chunk_count == 0 then min rest 20 else rest)
score_lem_example = score_lem snapshot full (ground arith)

is_excellent : grade (score snapshot full).0 ≡ excellent
unfolding grade score raw_score evidence_score weight after_sync after_latest after_errors
    after_chunks after_static parser_penalty is_static_only max_ℤ min_ℤ ◌-ℤ◌
is_excellent = refl

abbrev some_coverage : Coverage
some_coverage = record full { has_logs = false; has_deploys = false }
