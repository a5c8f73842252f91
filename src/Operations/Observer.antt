-- ===== src/Operations/Observer.antt =====
-- What `run_observer` finds. Rates are ten-thousandths, so that a rate of a threshold is compared
-- without a division; the code compares floating-point quotients.
pub mod Alarms
use ops_incident_core.Prelude.{
  ℕ, ◌+◌, ◌*◌, max, Bool, true, false, ◌&&◌, Option, none, some, String, List, [], ◌∷◌, ◌++◌, any,
  select, take, when, if◌then◌else◌, ltb, leb, length, or_default,
}
use text.Mathlib.Text.{◌==◌ as str_eq}
use ops_incident_core.Db.{IndexJob, IndexStatus, SourceSync}

pub record ObserverSettings : Type 0 where
  pub observer_sync_window : ℕ
  pub observer_parser_error_rate_threshold : ℕ
  pub observer_min_eval_recall : ℕ
  pub observer_max_wrong_source_type_rate : ℕ
  pub observer_eval_p95_latency_ms : ℕ
  pub logging_aggregate_event_limit : ℕ
  pub worker_mode_is_queue : Bool

-- The keys of an evaluation's summary.
pub record EvalSummary : Type 0 where
  pub avg_evidence_recall : Option ℕ
  pub avg_recall : Option ℕ
  pub wrong_source_type_rate : Option ℕ
  pub latency_p95_ms : Option ℕ
  pub total_cases : ℕ
  pub failed_cases : ℕ

-- What the queries of an observer return: the project's syncs, the newest first, its index jobs,
-- and the summary of its newest evaluation, where there is one with a summary.
pub record Observed : Type 0 where
  pub syncs : List SourceSync
  pub index_jobs : List IndexJob
  pub latest_eval : Option EvalSummary

-- A finding: its type and severity.
abbrev pub Observation : Type 0
Observation = String × String

unfoldable pub sum_files : List SourceSync → ℕ
sum_files [] = 0
sum_files (sync ∷ syncs) = sync.files_seen + sum_files syncs

unfoldable pub sum_parser_errors : List SourceSync → ℕ
sum_parser_errors [] = 0
sum_parser_errors (sync ∷ syncs) = sync.parser_errors + sum_parser_errors syncs

-- `parser_errors and parser_rate >= threshold`, with the severity.
unfoldable pub parser_findings : ℕ → ℕ → ℕ → List Observation
parser_findings threshold files errors =
    let seen = max files 1 in
    when (ltb 0 errors && leb (threshold * seen) (errors * 10000)) (
      "parser_loss_spike",
      (if leb (threshold * 2 * seen) (errors * 10000) then "high" else "medium"),
    )

abbrev is_failed : IndexStatus → Bool
is_failed IndexStatus.failed = true
is_failed _ = false

abbrev is_stale : IndexStatus → Bool
is_stale IndexStatus.stale = true
is_stale _ = false

unfoldable pub count_failed : List IndexJob → ℕ
count_failed jobs = length (select (λ job. is_failed job.status) jobs)

unfoldable pub count_stale : List IndexJob → ℕ
count_stale jobs = length (select (λ job. is_stale job.status) jobs)

-- `summary.get("avg_evidence_recall") or summary.get("avg_recall") or 0.0`
unfoldable pub recall_of : EvalSummary → ℕ
recall_of summary =
    let evidence = or_default summary.avg_evidence_recall 0 in
    if ltb 0 evidence then evidence else or_default summary.avg_recall 0

unfoldable pub eval_findings : ObserverSettings → Option EvalSummary → List Observation
unfolding recall_of
eval_findings settings none = []
eval_findings settings (some summary) =
    when (ltb (recall_of summary) settings.observer_min_eval_recall)
      ("retrieval_recall_regression", "high")
    ++ when
        (ltb settings.observer_max_wrong_source_type_rate
          (or_default summary.wrong_source_type_rate 0))
        ("wrong_source_type_rate", "medium")
    ++ when (ltb settings.observer_eval_p95_latency_ms (or_default summary.latency_p95_ms 0))
        ("eval_latency_regression", "medium")

unfoldable pub observe : ObserverSettings → Observed → List Observation
unfolding parser_findings count_failed count_stale eval_findings sum_files sum_parser_errors
observe settings seen =
    let window = take settings.observer_sync_window seen.syncs in
    parser_findings settings.observer_parser_error_rate_threshold (sum_files window)
      (sum_parser_errors window)
    ++ when (ltb 0 (count_failed seen.index_jobs)) ("index_job_failures", "high")
    ++ when (ltb 0 (count_stale seen.index_jobs)) ("stale_index_version", "medium")
    ++ eval_findings settings seen.latest_eval

abbrev pub is_high : Observation → Bool
is_high finding = str_eq finding.1 "high"

-- `"high" if any(item["severity"] == "high" for item in findings) else "info"`
unfoldable pub completed_severity : List Observation → String
completed_severity findings = if any is_high findings then "high" else "info"
