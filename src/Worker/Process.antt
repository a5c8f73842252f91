-- ===== src/Worker/Process.antt =====
-- The worker's loop: `run_worker`, `_process_job` and their helpers, of
-- incidentops/worker/main.py, over any queue with the protocol of `JobQueue`. How each
-- `execute_job` ends, and what the table of index jobs has become meanwhile, are arguments; the
-- jobs of a batch, which the code gathers, run one after another, since each acts on the queue in
-- calls of its own.
pub mod Termination
pub mod Accounting
pub mod Rounds
use ops_incident_core.Prelude.{
  ℕ, zero, suc, ◌+◌, ◌*◌, ◌&&◌, Bool, true, false, Option, none, some, String, List, [], ◌∷◌, max,
  if◌then◌else◌, ltb, is_some,
}
use ops_incident_core.Settings.{Settings}
use ops_incident_core.Db.{IndexJob}
use ops_incident_core.Worker.Queue.Job.{Job, JobType, Payload, JobQueue}
use ops_incident_core.Worker.Dispatch.{dispatch_recoverable_index_jobs}

-- How the job's execution ends: it returns, it runs into the time limit, or it raises an
-- exception, given by its class name in lower case, cut to 64 characters.
pub data Outcome : Type 0 where
  done timed_out : Outcome
  raised : String → Outcome

-- `_safe_error`
abbrev pub safe_error : Outcome → String
safe_error (raised name) = name
safe_error _ = "job_timeout"

-- The job types of `_can_retry`.
unfoldable pub is_retryable : JobType → Bool
is_retryable JobType.index_document = true
is_retryable JobType.execute_evaluator_agent = true
is_retryable JobType.execute_observer_agent = true
is_retryable JobType.aggregate_operational_events = true
is_retryable _ = false

unfoldable pub can_retry : Settings → JobType → Payload → Bool
can_retry settings job_type payload =
    is_retryable job_type && ltb payload.worker_attempt settings.worker_job_max_retries

unfoldable pub job_timeout_seconds : Settings → JobType → ℕ
job_timeout_seconds settings JobType.execute_workflow_run = settings.workflow_run_timeout_seconds
job_timeout_seconds settings JobType.execute_eval_run = settings.eval_run_timeout_seconds
job_timeout_seconds settings JobType.execute_evaluator_agent = settings.eval_run_timeout_seconds
job_timeout_seconds settings JobType.execute_observer_agent =
    settings.operational_agent_timeout_seconds
job_timeout_seconds settings JobType.aggregate_operational_events =
    settings.operational_agent_timeout_seconds
job_timeout_seconds settings JobType.index_document = settings.index_job_timeout_seconds
job_timeout_seconds settings JobType.unsupported = max (settings.rag_remote_timeout_seconds * 4) 30

-- The worker's state: the queue, the counters of the metrics, the operational runs that
-- `_mark_operational_failure` was called for, the table that the dispatcher reads and writes, and
-- the sum of the counts that it has returned.
pub record Worker (Q : Type 0) : Type 0 where
  pub queue : Q
  pub jobs_started : ℕ
  pub jobs_completed : ℕ
  pub jobs_failed : ℕ
  pub jobs_retried : ℕ
  pub marked : List (ℕ × String)
  pub index_jobs : List IndexJob
  pub jobs_published : ℕ

-- A round of the loop: its time, the rows that other sessions hold, and what the sessions of the API
-- and of other workers have made of the table since the round before.
pub record Round : Type 0 where
  pub now : ℕ
  pub locked : ℕ → Bool
  pub committed : List IndexJob → List IndexJob

-- `_mark_operational_failure`: nothing to mark where the payload names no run.
unfoldable pub mark_operational_failure : Option ℕ → String → List (ℕ × String) → List (ℕ × String)
mark_operational_failure none error marked = marked
mark_operational_failure (some run_id) error marked = (run_id, error) ∷ marked

module _ {Q : Type 0} (api : JobQueue Q) (settings : Settings) where
  open api use {enqueue, dequeue, acknowledge, fail}

  -- The `except` block.
  unfoldable pub handle_failure : String → Job → Worker Q → Worker Q
  unfolding can_retry mark_operational_failure
  handle_failure error job w =
      if can_retry settings job.job_type job.payload
      then record w {
        queue =
            acknowledge job.id
              (enqueue job.job_type
                (record (job.payload) { worker_attempt = job.payload.worker_attempt + 1 })
                w.queue).0;
        jobs_failed = w.jobs_failed + 1;
        jobs_retried = w.jobs_retried + 1;
      }
      else record w {
        queue = fail job.id error w.queue;
        jobs_failed = w.jobs_failed + 1;
        marked = mark_operational_failure job.payload.operational_run_id error w.marked;
      }

  unfoldable pub process_job : Outcome → Job → Worker Q → Worker Q
  unfolding handle_failure
  process_job done job w = record w {
    queue = acknowledge job.id w.queue;
    jobs_started = w.jobs_started + 1;
    jobs_completed = w.jobs_completed + 1;
  }
  process_job timed_out job w =
      handle_failure (safe_error timed_out) job (record w { jobs_started = w.jobs_started + 1 })
  process_job (raised name) job w =
      handle_failure (safe_error (raised name)) job (record w { jobs_started = w.jobs_started + 1 })

  -- `for _ in range(max(1, settings.worker_concurrency))`: dequeue until the queue has no job.
  unfoldable pub dequeue_batch : ℕ → Q → Q × List Job
  dequeue_batch zero q = (q, [])
  dequeue_batch (suc n) q =
      let (q', job) = dequeue q in
      elim job [ none ↦ (q', []) | some j ↦ (let (q'', js) = dequeue_batch n q' in (q'', j ∷ js)) ]

  -- The jobs of a batch; `outcomes` says how an execution ends, by the job and the count of
  -- executions before it, and `writes` what the table is after it.
  module _ (outcomes : Job → ℕ → Outcome) (writes : Job → ℕ → List IndexJob → List IndexJob) where
    unfoldable pub process_batch : List Job → Worker Q → Worker Q
    unfolding process_job
    process_batch [] w = w
    process_batch (job ∷ jobs) w =
        process_batch jobs (record (process_job (outcomes job w.jobs_started) job w) {
          index_jobs = writes job w.jobs_started w.index_jobs;
        })

    -- The jobs that are available, up to the concurrency.
    unfoldable pub process_available : Worker Q → Worker Q
    unfolding dequeue_batch process_batch
    process_available w =
        let (q, jobs) = dequeue_batch (max 1 settings.worker_concurrency) w.queue in
        process_batch jobs (record w { queue = q })

    -- `dispatch_recoverable_index_jobs`, at the head of each round.
    unfoldable pub dispatch_jobs : Round → Worker Q → Worker Q
    unfolding dispatch_recoverable_index_jobs
    dispatch_jobs round w =
        let (jobs, q, count) =
          dispatch_recoverable_index_jobs api settings round.now round.locked
            (round.committed w.index_jobs) w.queue in
        record w { index_jobs = jobs; queue = q; jobs_published = w.jobs_published + count }

    -- One round of `run_worker`; `run_worker(once=True)` is one such round.
    unfoldable pub run_round : Round → Worker Q → Worker Q
    unfolding dispatch_jobs process_available
    run_round round w = process_available (dispatch_jobs round w)

    unfoldable pub run_worker : List Round → Worker Q → Worker Q
    unfolding run_round
    run_worker [] w = w
    run_worker (round ∷ rounds) w = run_worker rounds (run_round round w)
