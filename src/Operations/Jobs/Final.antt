-- ===== src/Operations/Jobs/Final.antt =====
-- Whatever happens to the runs, in any order.
use ops_incident_core.Prelude.{
  ℕ, ◌≡◌, refl, ap, by_cases, ◌∙◌, inl, inr, Bool, true, false, not, ◌&&◌, Option, none, some, [],
  arith, Option-cases,
}
use ops_incident_core.Prelude.Text.{Text}
use ops_incident_core.Db.{find_row, find_row-key}
use ops_incident_core.Operations.Runs.{
  RunType, evaluator, observer, logging, same_type, is_terminal, OperationalRun, Operations,
  find_key, key_of, new_run, create_operational_run, mark_operational_run_failed,
}
use ops_incident_core.Operations.Observer.{ObserverSettings, Observed}
use ops_incident_core.Operations.Jobs.{
  EvalOutcome, evaluated, eval_raised, evaluate, execute_evaluator_agent_job, run_agent,
  execute_operational_agent_job, is_queued, agent_of, submit, enqueue,
}
use ops_incident_core.Operations.Jobs.Actions.{
  Action, requested, evaluator_delivered, agent_delivered, given_up, act, IsFresh, Leads, no_action,
  next_action, HasUniqueIds, starts,
}
use ops_incident_core.Operations.Jobs.Changes.{
  run_observer-IsChange, run_logging_aggregate-IsChange, evaluate-IsChange, failed-IsChange,
  fail_enqueued-IsChange,
}
use ops_incident_core.Operations.Jobs.Kept.{
  Keeps, nothing-Keeps, both-Keeps, change-Keeps, added-Keeps, find_added, find_key_found,
  attempts_of,
}

-- A run that is there and has not ended.
abbrev IsOpen : OperationalRun → Operations → Type 0
IsOpen run ops =
    (find_row OperationalRun.id run.id ops.runs ≡ some run) × (is_terminal run.status ≡ false)

-- What a query by identifier finds.
found_row :
    (k : ℕ) (ops : Operations) (run : OperationalRun)
    → find_row OperationalRun.id k ops.runs ≡ some run
    → find_row OperationalRun.id run.id ops.runs ≡ some run
found_row k ops run e =
    let same : run.id ≡ k = find_row-key OperationalRun.id k ops.runs {r = run} e in
    ap (λ j. find_row OperationalRun.id j ops.runs) same ∙ e

run_agent-Keeps :
    (settings : ObserverSettings) (now : ℕ) (seen : Observed) (run_type : RunType)
    (run : OperationalRun) (ops : Operations)
    → HasUniqueIds ops.runs
    → IsOpen run ops
    → Keeps ops (run_agent settings now seen run_type run ops)
unfolding run_agent
run_agent-Keeps settings now seen evaluator run ops u (e, h) = nothing-Keeps ops u
run_agent-Keeps settings now seen observer run ops u (e, h) =
    change-Keeps run ops _ u e h (run_observer-IsChange settings now seen run ops h)
run_agent-Keeps settings now seen logging run ops u (e, h) =
    change-Keeps run ops _ u e h (run_logging_aggregate-IsChange settings now run ops h)

evaluate-Keeps :
    (now : ℕ) (outcome : EvalOutcome) (run : OperationalRun) (ops : Operations)
    → HasUniqueIds ops.runs
    → IsOpen run ops
    → Keeps ops (evaluate now outcome run ops)
unfolding evaluate
evaluate-Keeps now eval_raised run ops u (e, h) = nothing-Keeps ops u
evaluate-Keeps now (evaluated has_failed summary) run ops u (e, h) =
    change-Keeps run ops _ u e h (evaluate-IsChange now has_failed summary run ops)

execute_evaluator_agent_job-Keeps :
    (now : ℕ) (has_eval_run : Bool) (outcome : EvalOutcome) (run_id : ℕ) (ops : Operations)
    → HasUniqueIds ops.runs
    → Keeps ops (execute_evaluator_agent_job now has_eval_run outcome run_id ops)
unfolding execute_evaluator_agent_job
execute_evaluator_agent_job-Keeps now has_eval_run outcome run_id ops u =
    elim (Option-cases (find_row OperationalRun.id run_id ops.runs)) [
      | inl e ↦ rw (e, execute_evaluator_agent_job) (nothing-Keeps ops u)
      | inr (run, e) ↦
          rw (e, execute_evaluator_agent_job)
            (by_cases (Keeps ops)
              (has_eval_run && same_type run.run_type evaluator && not (is_terminal run.status)) _ _
              (λ t. evaluate-Keeps now outcome run ops u (found_row run_id ops run e, ground arith))
              (λ f. nothing-Keeps ops u))
    ]

execute_operational_agent_job-Keeps :
    (settings : ObserverSettings) (now : ℕ) (seen : Observed) (expected_type : RunType) (run_id : ℕ)
    (ops : Operations)
    → HasUniqueIds ops.runs
    → Keeps ops (execute_operational_agent_job settings now seen expected_type run_id ops)
unfolding execute_operational_agent_job
execute_operational_agent_job-Keeps settings now seen expected_type run_id ops u =
    elim (Option-cases (find_row OperationalRun.id run_id ops.runs)) [
      | inl e ↦ rw (e, execute_operational_agent_job) (nothing-Keeps ops u)
      | inr (run, e) ↦
          rw (e, execute_operational_agent_job)
            (by_cases (Keeps ops)
              (same_type run.run_type expected_type && not (is_terminal run.status)) _ _
              (λ t.
                run_agent-Keeps settings now seen expected_type run ops u
                  (found_row run_id ops run e, ground arith))
              (λ f. nothing-Keeps ops u))
    ]

mark_operational_run_failed-Keeps :
    (now run_id : ℕ) (error : Text) (ops : Operations)
    → HasUniqueIds ops.runs
    → Keeps ops (mark_operational_run_failed now run_id error ops)
unfolding mark_operational_run_failed
mark_operational_run_failed-Keeps now run_id error ops u =
    elim (Option-cases (find_row OperationalRun.id run_id ops.runs)) [
      | inl e ↦ rw (e, mark_operational_run_failed) (nothing-Keeps ops u)
      | inr (run, e) ↦
          rw (e, mark_operational_run_failed)
            (by_cases (Keeps ops) (is_terminal run.status) _ _ (λ t. nothing-Keeps ops u)
              (λ f.
                change-Keeps run ops _ u (found_row run_id ops run e) f
                  (failed-IsChange now error run ops)))
    ]

submit-Keeps :
    (settings : ObserverSettings) (now : ℕ) (seen : Observed) (run_type : RunType)
    (publication : Option Text) (run : OperationalRun) (ops : Operations)
    → HasUniqueIds ops.runs
    → IsOpen run ops
    → Keeps ops (submit settings now seen run_type publication run ops)
unfolding submit
submit-Keeps settings now seen run_type none run ops u open_run =
    by_cases (Keeps ops) (not settings.worker_mode_is_queue) _ _
      (λ t. run_agent-Keeps settings now seen (agent_of run_type) run ops u open_run)
      (λ f. nothing-Keeps ops u)
submit-Keeps settings now seen run_type (some exception) run ops u open_run =
    by_cases (Keeps ops) (not settings.worker_mode_is_queue) _ _
      (λ t. run_agent-Keeps settings now seen (agent_of run_type) run ops u open_run)
      (λ f.
        change-Keeps run ops _ u open_run.0 open_run.1 (fail_enqueued-IsChange exception run ops))

-- The row that a request has found or made.
abbrev HasRun : OperationalRun → Operations → Type 0
HasRun run ops = find_row OperationalRun.id run.id ops.runs ≡ some run

create-Keeps :
    (fresh project_id : ℕ) (run_type : RunType) (key : Option Text) (built : Text)
    (ops : Operations)
    → HasUniqueIds ops.runs
    → find_row OperationalRun.id fresh ops.runs ≡ none
    → let (created, run) = create_operational_run fresh project_id run_type key built ops in
      Keeps ops created × HasRun run created
unfolding create_operational_run new_run
create-Keeps fresh project_id run_type key built ops u absent =
    elim (Option-cases (find_key project_id run_type (key_of key built) ops.runs)) [
      | inl e ↦
          let new = new_run fresh project_id run_type (key_of key built) in
          rw (e, create_operational_run)
            (added-Keeps new ops u absent refl, find_added fresh ops.runs new absent ∙ ground arith)
      | inr (run, e) ↦
          rw (e, create_operational_run)
            (
              nothing-Keeps ops u,
              find_key_found project_id run_type (key_of key built) ops.runs {run = run} u e,
            )
    ]

queued_open : (run : OperationalRun) → is_queued run.status ≡ true → is_terminal run.status ≡ false
queued_open run h = ground arith

enqueue-Keeps :
    (settings : ObserverSettings) (now fresh project_id : ℕ) (run_type : RunType)
    (key : Option Text) (built : Text) (seen : Observed) (publication : Option Text)
    (ops : Operations)
    → HasUniqueIds ops.runs
    → find_row OperationalRun.id fresh ops.runs ≡ none
    → Keeps ops (enqueue settings now fresh project_id run_type key built seen publication ops).0
unfolding enqueue
enqueue-Keeps settings now fresh project_id run_type key built seen publication ops u absent =
    let made = create_operational_run fresh project_id run_type key built ops in
    let (kept, there) = create-Keeps fresh project_id run_type key built ops u absent in
    by_cases (Keeps ops) (is_queued made.1.status) _ _
      (λ t. both-Keeps ops made.0 _ kept (
        submit-Keeps settings now seen run_type publication made.1 made.0 kept.unique
          (there, queued_open made.1 t)))
      (λ f. kept)

act-Keeps :
    (settings : ObserverSettings) (action : Action) (ops : Operations)
    → IsFresh action ops
    → HasUniqueIds ops.runs
    → Keeps ops (act settings action ops)
unfolding act
act-Keeps settings (requested now fresh project_id run_type key built seen publication) ops f u =
    enqueue-Keeps settings now fresh project_id run_type key built seen publication ops u f
act-Keeps settings (evaluator_delivered now has_eval_run outcome run_id) ops f u =
    execute_evaluator_agent_job-Keeps now has_eval_run outcome run_id ops u
act-Keeps settings (agent_delivered now seen expected_type run_id) ops f u =
    execute_operational_agent_job-Keeps settings now seen expected_type run_id ops u
act-Keeps settings (given_up now run_id error) ops f u =
    mark_operational_run_failed-Keeps now run_id error ops u

Leads-Keeps :
    (settings : ObserverSettings) (ops ops' : Operations)
    → Leads settings ops ops'
    → HasUniqueIds ops.runs
    → Keeps ops ops'
Leads-Keeps settings ops ops' no_action u = nothing-Keeps ops u
Leads-Keeps settings ops ops' (next_action action f rest) u =
    let kept = act-Keeps settings action ops f u in
    both-Keeps ops (act settings action ops) ops' kept
      (Leads-Keeps settings (act settings action ops) ops' rest kept.unique)

-- A run ends once: whatever is requested, delivered again or given up afterwards, in any order, its
-- row stays as it was when it had completed or failed. The identifiers of new rows are not in use.
pub run_ends_once :
    (settings : ObserverSettings) (ops ops' : Operations) (k : ℕ) (run : OperationalRun)
    → HasUniqueIds ops.runs
    → Leads settings ops ops'
    → find_row OperationalRun.id k ops.runs ≡ some run
    → is_terminal run.status ≡ true
    → find_row OperationalRun.id k ops'.runs ≡ some run
run_ends_once settings ops ops' k run u leads found ended =
    (Leads-Keeps settings ops ops' leads u).final k found ended

-- From empty tables, through any actions, every run has as many attempts as the log of events has
-- starts of it, and the log has none of a run that is not there.
pub attempts_are_logged :
    (settings : ObserverSettings) (ops : Operations)
    → Leads settings (record { runs = []; events = []; findings = [] }) ops
    → (k : ℕ) → attempts_of (find_row OperationalRun.id k ops.runs) ≡ starts k ops.events
attempts_are_logged settings ops leads k =
    (Leads-Keeps settings (record { runs = []; events = []; findings = [] }) ops leads tt).logged
      (λ j. refl) k
