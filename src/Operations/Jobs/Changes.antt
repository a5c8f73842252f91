-- ===== src/Operations/Jobs/Changes.antt =====
-- Every handler that goes on rewrites the one row that it has found, and logs each start that it
-- counts there.
use ops_incident_core.Prelude.{
  ℕ, ◌+◌, ◌≡◌, refl, sym, ◌∙◌, Bool, true, false, some, List, [], ◌∷◌, arith, if◌then◌else◌, ◌==◌,
}
use ops_incident_core.Prelude.Text.{Text}
use ops_incident_core.Db.{find_row, update_row}
use ops_incident_core.Operations.Runs.{
  is_terminal, OperationalRun, Operations, save, record_operational_event, start, record_start,
  begin_attempt, finish, fail_run,
}
use ops_incident_core.Operations.Observer.{ObserverSettings, Observed, EvalSummary}
use ops_incident_core.Operations.Agents.{
  run_observer, run_logging_aggregate, observed_summary, aggregated, add_findings, newest_events,
}
use ops_incident_core.Operations.Jobs.{evaluated, evaluate, finish_evaluator, fail_enqueued}
use ops_incident_core.Operations.Jobs.Actions.{starts, start_logged, other_logged}

update_row-same :
    (k : ℕ) (runs : List OperationalRun) {run : OperationalRun}
    → find_row OperationalRun.id k runs ≡ some run
    → update_row OperationalRun.id k (λ _. run) runs ≡ runs
update_row-same k [] e = refl
update_row-same k (r ∷ rs) {run} e = ground (arith, update_row-same k rs {run = run})

pub record IsChange (run : OperationalRun) (ops ops' : Operations) : Type 0 where
  pub new : OperationalRun
  pub same_id : new.id ≡ run.id
  pub runs_updated : ops'.runs ≡ update_row OperationalRun.id run.id (λ _. new) ops.runs
  pub started : ℕ
  pub attempts_added : new.attempts ≡ run.attempts + started
  pub starts_logged :
      (k : ℕ) → starts k ops'.events ≡ starts k ops.events + (if run.id == k then started else 0)

pub run_observer-IsChange :
    (settings : ObserverSettings) (now : ℕ) (seen : Observed) (run : OperationalRun)
    (ops : Operations)
    → is_terminal run.status ≡ false
    → IsChange run ops (run_observer settings now seen run ops)
unfolding run_observer start record_start record_operational_event save finish observed_summary
    add_findings begin_attempt
run_observer-IsChange settings now seen run ops h = rw h (record {
  new = finish now (observed_summary settings seen (begin_attempt now run));
  same_id = refl;
  runs_updated = refl;
  started = 1;
  attempts_added = refl;
  starts_logged = λ k. other_logged k _ _ refl ∙ start_logged k ops.events _ refl;
})

pub run_logging_aggregate-IsChange :
    (settings : ObserverSettings) (now : ℕ) (run : OperationalRun) (ops : Operations)
    → is_terminal run.status ≡ false
    → IsChange run ops (run_logging_aggregate settings now run ops)
unfolding run_logging_aggregate start record_start record_operational_event save finish aggregated
    begin_attempt
run_logging_aggregate-IsChange settings now run ops h =
    let recorded = record_start (begin_attempt now run) ops in
    let events =
      newest_events run.project_id settings.logging_aggregate_event_limit recorded.events in
    rw h (record {
      new = finish now (aggregated events (begin_attempt now run));
      same_id = refl;
      runs_updated = refl;
      started = 1;
      attempts_added = refl;
      starts_logged = λ k. start_logged k ops.events _ refl;
    })

-- Nothing at all.
pub unchanged-IsChange :
    (run : OperationalRun) (ops : Operations)
    → find_row OperationalRun.id run.id ops.runs ≡ some run
    → IsChange run ops ops
unchanged-IsChange run ops e = record {
  new = run;
  same_id = refl;
  runs_updated = sym (update_row-same run.id ops.runs e);
  started = 0;
  attempts_added = omega arith;
  starts_logged = λ k. ground arith;
}

pub evaluate-IsChange :
    (now : ℕ) (has_failed : Bool) (summary : EvalSummary) (run : OperationalRun) (ops : Operations)
    → IsChange run ops (evaluate now (evaluated has_failed summary) run ops)
unfolding evaluate record_operational_event save finish_evaluator begin_attempt
evaluate-IsChange now true summary run ops = record {
  new = finish_evaluator now true summary (begin_attempt now run);
  same_id = refl;
  runs_updated = refl;
  started = 1;
  attempts_added = refl;
  starts_logged = λ k. other_logged k _ _ refl ∙ start_logged k ops.events _ refl;
}
evaluate-IsChange now false summary run ops = record {
  new = finish_evaluator now false summary (begin_attempt now run);
  same_id = refl;
  runs_updated = refl;
  started = 1;
  attempts_added = refl;
  starts_logged = λ k. other_logged k _ _ refl ∙ start_logged k ops.events _ refl;
}

pub failed-IsChange :
    (now : ℕ) (error : Text) (run : OperationalRun) (ops : Operations)
    → IsChange run ops (
        record_operational_event run "worker" "operational_run_failed" "high"
          (save (fail_run now error run) ops))
unfolding record_operational_event save fail_run
failed-IsChange now error run ops = record {
  new = fail_run now error run;
  same_id = refl;
  runs_updated = refl;
  started = 0;
  attempts_added = omega arith;
  starts_logged = λ k. other_logged k ops.events _ refl ∙ ground arith;
}

pub fail_enqueued-IsChange :
    (exception : Text) (run : OperationalRun) (ops : Operations)
    → IsChange run ops (save (fail_enqueued exception run) ops)
unfolding save fail_enqueued
fail_enqueued-IsChange exception run ops = record {
  new = fail_enqueued exception run;
  same_id = refl;
  runs_updated = refl;
  started = 0;
  attempts_added = omega arith;
  starts_logged = λ k. ground arith;
}
