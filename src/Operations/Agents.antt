-- ===== src/Operations/Agents.antt =====
-- `run_observer` and `run_logging_aggregate`.
use ops_incident_core.Prelude.{
  ℕ, String, List, [], ◌∷◌, ◌++◌, map, select, take, length, ◌==◌, sort_by,
}
use mathlib.Core.List.{reverse}
use ops_incident_core.Prelude.Text.{codes}
use ops_incident_core.Db.{Counts}
use ops_incident_core.Ingestion.Failures.{increment, key_leb}
use ops_incident_core.Retrieval.Packing.{text_leb}
use ops_incident_core.Operations.Runs.{
  OperationalRun, RunEvent, OperationalFinding, Operations, observer_summary, logging_summary, save,
  record_operational_event, start, record_start, finish,
}
use ops_incident_core.Operations.Observer.{
  ObserverSettings, Observed, Observation, observe, completed_severity, sum_files,
  sum_parser_errors, count_failed, count_stale,
}

unfoldable pub finding_row : OperationalRun → Observation → OperationalFinding
finding_row run finding = record {
  operational_run_id = run.id;
  project_id = run.project_id;
  finding_type = finding.0;
  severity = finding.1;
}

unfoldable pub add_findings : OperationalRun → List Observation → Operations → Operations
unfolding finding_row
add_findings run findings ops = record ops {
  findings = ops.findings ++ map (finding_row run) findings;
}

unfoldable pub observed_summary : ObserverSettings → Observed → OperationalRun → OperationalRun
unfolding observe sum_files sum_parser_errors count_failed count_stale
observed_summary settings seen run =
    let window = take settings.observer_sync_window seen.syncs in
    record run {
      summary =
          observer_summary (length (observe settings seen)) (length window) (sum_files window)
            (sum_parser_errors window) (count_failed seen.index_jobs) (count_stale seen.index_jobs);
    }

unfoldable pub run_observer :
    ObserverSettings → ℕ → Observed → OperationalRun → Operations → Operations
unfolding start record_start observe add_findings record_operational_event completed_severity
    observed_summary finish save
run_observer settings now seen run ops =
    let started = start now run in
    let findings = observe settings seen in
    save (finish now (observed_summary settings seen started)) (
      record_operational_event started "observer" "observer_completed" (completed_severity findings)
        (add_findings started findings (record_start started ops)))

-- `Counter(...)` of the labels of events, sorted by key.
unfoldable pub count_labels : (RunEvent → String) → List RunEvent → Counts → Counts
unfolding increment
count_labels label [] counts = counts
count_labels label (event ∷ events) counts =
    count_labels label events (increment (codes (label event)) counts)

unfoldable pub sorted_counts : (RunEvent → String) → List RunEvent → Counts
unfolding count_labels text_leb
sorted_counts label events = sort_by key_leb (count_labels label events [])

-- The newest events of a project; a table is in the order of creation.
unfoldable pub newest_events : ℕ → ℕ → List RunEvent → List RunEvent
newest_events project_id limit events =
    take limit (reverse (select (λ event. event.project_id == project_id) events))

unfoldable pub aggregated : List RunEvent → OperationalRun → OperationalRun
unfolding sorted_counts
aggregated events run = record run {
  summary =
      logging_summary (length events) (sorted_counts RunEvent.category events)
        (sorted_counts RunEvent.severity events)
        (take 20 (sorted_counts RunEvent.event_type events));
}

unfoldable pub run_logging_aggregate :
    ObserverSettings → ℕ → OperationalRun → Operations → Operations
unfolding start record_start newest_events aggregated finish save
run_logging_aggregate settings now run ops =
    let started = start now run in
    let recorded = record_start started ops in
    let events =
      newest_events run.project_id settings.logging_aggregate_event_limit recorded.events in
    save (finish now (aggregated events started)) recorded
