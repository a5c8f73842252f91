-- ===== src/Operations/Jobs/Actions.antt =====
-- Requests, deliveries and failures in any order.
use ops_incident_core.Prelude.{
  ℕ, ◌+◌, ◌≡◌, Bool, true, false, ◌&&◌, ◌||◌, Option, none, List, [], ◌∷◌, ◌++◌, arith,
  if◌then◌else◌, ◌==◌,
}
use text.Mathlib.Text.{◌==◌ as str_eq}
use ops_incident_core.Prelude.Text.{Text}
use ops_incident_core.Db.{find_row}
use ops_incident_core.Operations.Runs.{
  RunType, OperationalRun, RunEvent, Operations, mark_operational_run_failed,
}
use ops_incident_core.Operations.Observer.{ObserverSettings, Observed}
use ops_incident_core.Operations.Jobs.{
  EvalOutcome, execute_evaluator_agent_job, execute_operational_agent_job, enqueue,
}

-- What happens to the runs, with the time of it: a request at the route, the delivery of a job, and
-- the worker's giving up on one.
pub data Action : Type 0 where
  requested :
      (now fresh project_id : ℕ) (run_type : RunType) (key : Option Text) (built : Text)
      (seen : Observed) (publication : Option Text)
      → Action
  evaluator_delivered :
      (now : ℕ) (has_eval_run : Bool) (outcome : EvalOutcome) (run_id : ℕ) → Action
  agent_delivered : (now : ℕ) (seen : Observed) (expected_type : RunType) (run_id : ℕ) → Action
  given_up : (now run_id : ℕ) (error : Text) → Action

unfoldable pub act : ObserverSettings → Action → Operations → Operations
unfolding enqueue execute_evaluator_agent_job execute_operational_agent_job
    mark_operational_run_failed
act settings (requested now fresh project_id run_type key built seen publication) ops =
    (enqueue settings now fresh project_id run_type key built seen publication ops).0
act settings (evaluator_delivered now has_eval_run outcome run_id) ops =
    execute_evaluator_agent_job now has_eval_run outcome run_id ops
act settings (agent_delivered now seen expected_type run_id) ops =
    execute_operational_agent_job settings now seen expected_type run_id ops
act settings (given_up now run_id error) ops = mark_operational_run_failed now run_id error ops

-- An identifier that is drawn is not in use.
abbrev pub IsFresh : Action → Operations → Type 0
IsFresh (requested now fresh project_id run_type key built seen publication) ops =
    find_row OperationalRun.id fresh ops.runs ≡ none
IsFresh _ ops = Unit

-- The states that actions lead to.
pub data Leads (settings : ObserverSettings) : Operations → Operations → Type 0 where
  no_action : {ops : Operations} → Leads settings ops ops
  next_action :
      {ops ops' : Operations} (action : Action)
      → IsFresh action ops
      → Leads settings (act settings action ops) ops'
      → Leads settings ops ops'

-- No identifier stands for two runs.
abbrev pub HasUniqueIds : List OperationalRun → Type 0
HasUniqueIds [] = Unit
HasUniqueIds (run ∷ runs) = (find_row OperationalRun.id run.id runs ≡ none) × HasUniqueIds runs

-- The starts of a run that the log of events has.
abbrev is_start : RunEvent → Bool
is_start event =
    str_eq event.event_type "operational_run_started" || str_eq event.event_type "evaluator_started"

abbrev pub starts : ℕ → List RunEvent → ℕ
starts k [] = 0
starts k (event ∷ events) =
    (if event.operational_run_id == k && is_start event then 1 else 0) + starts k events

-- One more event, a start or another.
starts-snoc :
    (k : ℕ) (events : List RunEvent) (event : RunEvent)
    → starts k (events ++ event ∷ [])
      ≡ starts k events + (if event.operational_run_id == k && is_start event then 1 else 0)
starts-snoc k [] event = omega arith
starts-snoc k (x ∷ xs) event = omega (arith, starts-snoc k xs event)

pub start_logged :
    (k : ℕ) (events : List RunEvent) (event : RunEvent)
    → is_start event ≡ true
    → starts k (events ++ event ∷ [])
      ≡ starts k events + (if event.operational_run_id == k then 1 else 0)
start_logged k events event h = ground (arith, starts-snoc k events event)

pub other_logged :
    (k : ℕ) (events : List RunEvent) (event : RunEvent)
    → is_start event ≡ false
    → starts k (events ++ event ∷ []) ≡ starts k events
other_logged k events event h = ground (arith, starts-snoc k events event)
