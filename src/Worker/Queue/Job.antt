-- ===== src/Worker/Queue/Job.antt =====
-- Jobs (incidentops/worker/schemas.py) and the protocol of a queue.
use ops_incident_core.Prelude.{ℕ, Bool, Option, String}

-- `Job.job_type`: the strings that `execute_job` names, and any other.
pub data JobType : Type 0 where
  execute_workflow_run execute_eval_run execute_evaluator_agent : JobType
  execute_observer_agent aggregate_operational_events index_document : JobType
  unsupported : JobType

-- The entries of `Job.payload` that the worker reads: the row that the handler loads, the
-- operational run, and `_worker_attempt`, which is 0 where the key is absent.
pub record Payload : Type 0 where
  pub target : ℕ
  pub operational_run_id : Option ℕ
  pub worker_attempt : ℕ

pub record Job : Type 0 where
  pub id : ℕ
  pub job_type : JobType
  pub payload : Payload

-- `class JobQueue(Protocol)`. Each operation returns the queue after the call; `enqueue` also
-- says whether it returned, or raised. Enqueueing makes a fresh job of the type and payload.
pub record JobQueue (Q : Type 0) : Type 0 where
  pub enqueue : JobType → Payload → Q → Q × Bool
  pub dequeue : Q → Q × Option Job
  pub acknowledge : ℕ → Q → Q
  pub fail : ℕ → String → Q → Q
