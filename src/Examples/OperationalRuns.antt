-- ===== src/Examples/OperationalRuns.antt =====
-- An observer that is requested, delivered, and delivered again.
use ops_incident_core.Prelude.{◌≡◌, refl, true, ◌||◌, none, some, [], ◌∷◌, ltb}
use text.Mathlib.Text.{◌==◌ as str_eq}
use ops_incident_core.Prelude.Text.{codes}
use ops_incident_core.Db.{find_row}
use ops_incident_core.Operations.Runs.{
  observer, OperationalRunStatus, OperationalRun, Operations, observer_summary,
}
use ops_incident_core.Operations.Observer.{
  ObserverSettings, Observed, observe, completed_severity, count_failed,
}
use ops_incident_core.Operations.Observer.Alarms.{is_spike, has_low_recall, observe_lem}
use ops_incident_core.Operations.Jobs.Actions.{
  requested, agent_delivered, given_up, act, no_action, next_action, starts,
}
use ops_incident_core.Operations.Jobs.Kept.{attempts_of}
use ops_incident_core.Operations.Jobs.Final.{run_ends_once, attempts_are_logged}

abbrev settings : ObserverSettings
settings = record {
  observer_sync_window = 20;
  observer_parser_error_rate_threshold = 1000;
  observer_min_eval_recall = 6000;
  observer_max_wrong_source_type_rate = 2500;
  observer_eval_p95_latency_ms = 1500;
  logging_aggregate_event_limit = 500;
  worker_mode_is_queue = true;
}

abbrev seen : Observed
seen = record {
  syncs = [];
  index_jobs = [];
  latest_eval = some (record {
    avg_evidence_recall = some 0;
    avg_recall = some 5000;
    wrong_source_type_rate = none;
    latency_p95_ms = some 900;
    total_cases = 10;
    failed_cases = 5;
  });
}

observe_lem_example : str_eq (completed_severity (observe settings seen)) "high" ≡ (
    is_spike settings seen || ltb 0 (count_failed []) || has_low_recall settings seen.latest_eval)
observe_lem_example = observe_lem settings seen

abbrev no_runs : Operations
no_runs = record { runs = []; events = []; findings = [] }

abbrev requested_run : Operations
requested_run =
    act settings (requested 10 1 7 observer (some (codes "morning")) [] seen none) no_runs

abbrev delivered_run : Operations
delivered_run = act settings (agent_delivered 20 seen observer 1) requested_run

attempts_are_logged_example :
    attempts_of (find_row OperationalRun.id 1 delivered_run.runs) ≡ starts 1 delivered_run.events
attempts_are_logged_example =
    attempts_are_logged settings delivered_run
      (next_action (requested 10 1 7 observer (some (codes "morning")) [] seen none) refl
        (next_action (agent_delivered 20 seen observer 1) tt no_action))
      1

abbrev ended : OperationalRun
ended = record {
  id = 1;
  project_id = 7;
  run_type = observer;
  status = OperationalRunStatus.completed;
  idempotency_key = codes "morning";
  summary = observer_summary 1 0 0 0 0 0;
  attempts = 1;
  error_code = none;
  started_at = some 20;
  finished_at = some 20;
}

abbrev ended_runs : Operations
ended_runs = record { runs = ended ∷ []; events = []; findings = [] }

run_ends_once_example :
    find_row OperationalRun.id 1
      (act settings
        (agent_delivered 40 seen observer 1)
        (act settings (given_up 30 1 (codes "TimeoutError")) ended_runs)).runs
    ≡ some ended
run_ends_once_example =
    run_ends_once settings ended_runs
      (act settings (agent_delivered 40 seen observer 1)
        (act settings (given_up 30 1 (codes "TimeoutError")) ended_runs))
      1 ended (refl, tt)
      (next_action (given_up 30 1 (codes "TimeoutError")) tt
        (next_action (agent_delivered 40 seen observer 1) tt no_action))
      refl refl
