-- ===== src/Operations/Jobs.antt =====
-- Who runs an operational run: `execute_evaluator_agent_job` and `execute_operational_agent_job` of
-- incidentops/worker/jobs.py, and `_enqueue` of apps/api/routes/operations.py after its check of
-- the role, which is that of the other routes. The audit row of a request is left out.
pub mod Actions
pub mod Changes
pub mod Kept
pub mod Final
use ops_incident_core.Prelude.{
  ℕ, ◌+◌, Bool, true, false, ◌&&◌, ◌||◌, not, Option, none, some, String, List, [], ◌∷◌, ◌++◌, take,
  if◌then◌else◌, is_some, or_default, ltb,
}
use ops_incident_core.Prelude.Text.{Text, codes, lower}
use ops_incident_core.Db.{find_row}
use ops_incident_core.Operations.Runs.{
  RunType, evaluator, observer, logging, same_type, OperationalRunStatus, is_terminal,
  OperationalRun, Operations, evaluator_summary, failed_summary, save, record_operational_event,
  create_operational_run, begin_attempt,
}
use ops_incident_core.Operations.Observer.{ObserverSettings, Observed, EvalSummary, recall_of}
use ops_incident_core.Operations.Agents.{run_observer, run_logging_aggregate}

-- What the runner of an evaluation does: it returns whether its run has failed, with its summary,
-- or it raises.
pub data EvalOutcome : Type 0 where
  evaluated : Bool → EvalSummary → EvalOutcome
  eval_raised : EvalOutcome

unfoldable pub finish_evaluator : ℕ → Bool → EvalSummary → OperationalRun → OperationalRun
unfolding recall_of
finish_evaluator now has_failed summary run = record run {
  summary =
      evaluator_summary (not has_failed) summary.total_cases summary.failed_cases
        (recall_of summary) (or_default summary.wrong_source_type_rate 0)
        (or_default summary.latency_p95_ms 0);
  status = if has_failed then OperationalRunStatus.failed else OperationalRunStatus.completed;
  finished_at = some now;
}

-- The session of the handler ends without a commit where the evaluation raises.
unfoldable pub evaluate : ℕ → EvalOutcome → OperationalRun → Operations → Operations
unfolding begin_attempt finish_evaluator record_operational_event save
evaluate now eval_raised run ops = ops
evaluate now (evaluated has_failed summary) run ops =
    let started = begin_attempt now run in
    let finished = finish_evaluator now has_failed summary started in
    record_operational_event finished "evaluator"
      (if has_failed then "evaluator_failed" else "evaluator_completed")
      (if has_failed then "high" else "info")
      (save finished (record_operational_event started "evaluator" "evaluator_started" "info" ops))

-- `has_eval_run` tells whether the run of the evaluation is there.
unfoldable pub execute_evaluator_agent_job : ℕ → Bool → EvalOutcome → ℕ → Operations → Operations
unfolding evaluate
execute_evaluator_agent_job now has_eval_run outcome run_id ops =
    elim (find_row OperationalRun.id run_id ops.runs) [
      | none ↦ ops
      | some run ↦
          if has_eval_run && same_type run.run_type evaluator && not (is_terminal run.status)
          then evaluate now outcome run ops
          else ops
    ]

-- The two types that the worker dispatches; the branch for a third raises and is not reached.
unfoldable pub run_agent :
    ObserverSettings → ℕ → Observed → RunType → OperationalRun → Operations → Operations
unfolding run_observer run_logging_aggregate
run_agent settings now seen observer run ops = run_observer settings now seen run ops
run_agent settings now seen logging run ops = run_logging_aggregate settings now run ops
run_agent settings now seen evaluator run ops = ops

unfoldable pub execute_operational_agent_job :
    ObserverSettings → ℕ → Observed → RunType → ℕ → Operations → Operations
unfolding run_agent
execute_operational_agent_job settings now seen expected_type run_id ops =
    elim (find_row OperationalRun.id run_id ops.runs) [
      | none ↦ ops
      | some run ↦
          if same_type run.run_type expected_type && not (is_terminal run.status)
          then run_agent settings now seen expected_type run ops
          else ops
    ]

-- A failed publication: the name of the exception's class in lower case.
unfoldable pub fail_enqueued : Text → OperationalRun → OperationalRun
unfolding lower
fail_enqueued exception run =
    let error = take 64 (lower exception) in
    record run {
      status = OperationalRunStatus.failed;
      error_code = some error;
      summary = failed_summary error;
    }

abbrev is_queued : OperationalRunStatus → Bool
is_queued OperationalRunStatus.queued = true
is_queued _ = false

abbrev agent_of : RunType → RunType
agent_of observer = observer
agent_of _ = logging

-- After the run is found or made; `publication` is what the queue raises, where it raises.
unfoldable pub submit :
    ObserverSettings
    → ℕ
    → Observed
    → RunType
    → Option Text
    → OperationalRun
    → Operations
    → Operations
unfolding run_agent fail_enqueued save
submit settings now seen run_type publication run ops =
    if not settings.worker_mode_is_queue
    then run_agent settings now seen (agent_of run_type) run ops
    else elim publication [ none ↦ ops | some exception ↦ save (fail_enqueued exception run) ops ]

-- The tables, and the run that was found or made. The route publishes if the run is queued.
unfoldable pub enqueue :
    ObserverSettings
    → ℕ
    → ℕ
    → ℕ
    → RunType
    → Option Text
    → Text
    → Observed
    → Option Text
    → Operations
    → Operations × OperationalRun
unfolding create_operational_run submit
enqueue settings now fresh project_id run_type idempotency_key built seen publication ops =
    let (created, run) =
      create_operational_run fresh project_id run_type idempotency_key built ops in
    (
      if is_queued run.status
          then submit settings now seen run_type publication run created
          else created,
      run,
    )
