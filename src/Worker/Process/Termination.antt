-- ===== src/Worker/Process/Termination.antt =====
-- The worker comes to an end with every job, over the queue of the process.
use ops_incident_core.Prelude.{
  ℕ, zero, suc, ◌+◌, ◌-◌, ◌*◌, ◌≤◌, ◌<◌, ◌≡◌, refl, String, List, [], ◌∷◌, ◌++◌, arith, max,
  if◌then◌else◌, length,
}
use ops_incident_core.Settings.{Settings}
use ops_incident_core.Worker.Queue.Job.{Job, JobType}
use ops_incident_core.Db.{IndexJob}
use ops_incident_core.Worker.Dispatch.{publish, message}
use ops_incident_core.Worker.Queue.Inline.{
  InlineQueue, inline_queue, enqueue, dequeue, acknowledge, fail,
}
use ops_incident_core.Worker.Process.{
  Outcome, done, timed_out, raised, Worker, is_retryable, process_job, handle_failure,
  dequeue_batch, process_batch, process_available,
}

module _ (settings : Settings) where
  -- How often a job can still be executed.
  abbrev pub budget : Job → ℕ
  budget job =
      if is_retryable job.job_type
      then suc (settings.worker_job_max_retries - job.payload.worker_attempt)
      else 1

  abbrev pub total_budget : List Job → ℕ
  total_budget [] = 0
  total_budget (job ∷ jobs) = budget job + total_budget jobs

  total_budget-append :
      (xs ys : List Job) → total_budget (xs ++ ys) ≡ total_budget xs + total_budget ys
  total_budget-append [] ys = omega arith
  total_budget-append (x ∷ xs) ys = omega (arith, total_budget-append xs ys)

  abbrev pub retried_job : Job → InlineQueue → Job
  retried_job job q = record {
    id = q.next_id;
    job_type = job.job_type;
    payload = record (job.payload) { worker_attempt = job.payload.worker_attempt + 1 };
  }

  abbrev pub published_job : IndexJob → InlineQueue → Job
  published_job job q = record {
    id = q.next_id;
    job_type = JobType.index_document;
    payload = message inline_queue job;
  }

  handle_failure-budget :
      (error : String) (job : Job) (w : Worker InlineQueue)
      → total_budget (handle_failure inline_queue settings error job w).queue.jobs
        < total_budget w.queue.jobs + budget job
  unfolding handle_failure enqueue acknowledge fail
  handle_failure-budget error job w =
      ground (arith, total_budget-append w.queue.jobs (retried_job job w.queue ∷ []))

  -- Executing a job puts back less than its budget.
  process_job-budget :
      (outcome : Outcome) (job : Job) (w : Worker InlineQueue)
      → total_budget (process_job inline_queue settings outcome job w).queue.jobs
        < total_budget w.queue.jobs + budget job
  unfolding process_job acknowledge
  process_job-budget done job w = ground arith
  process_job-budget timed_out job w =
      handle_failure-budget "job_timeout" job (record w { jobs_started = w.jobs_started + 1 })
  process_job-budget (raised name) job w =
      handle_failure-budget name job (record w { jobs_started = w.jobs_started + 1 })

  dequeue_batch_budget :
      (n : ℕ) (q : InlineQueue) (jobs : List Job)
      → q.jobs ≡ jobs
      → let (q', batch) = dequeue_batch inline_queue settings n q in
        total_budget q'.jobs + total_budget batch ≡ total_budget jobs
  unfolding dequeue_batch dequeue
  dequeue_batch_budget zero q jobs e = ground arith
  dequeue_batch_budget (suc n) q [] e = ground arith
  dequeue_batch_budget (suc n) q (j ∷ js) e =
      ground (arith, dequeue_batch_budget n (record q { jobs = js }) js refl)

  dequeue_batch_some :
      (n : ℕ) (q : InlineQueue) (job : Job) (jobs : List Job)
      → q.jobs ≡ job ∷ jobs
      → 0 < n
      → 0 < length (dequeue_batch inline_queue settings n q).1
  unfolding dequeue_batch dequeue
  dequeue_batch_some zero q job jobs e h = absurd (omega arith)
  dequeue_batch_some (suc n) q job jobs e h = ground arith

  dequeue_batch_empty :
      (n : ℕ) (q : InlineQueue) → q.jobs ≡ [] → dequeue_batch inline_queue settings n q ≡ (q, [])
  unfolding dequeue_batch dequeue
  dequeue_batch_empty zero q e = refl
  dequeue_batch_empty (suc n) q e = ground arith

  -- A message of the dispatcher is a job that has all its executions left.
  abbrev pub full_budget : ℕ
  full_budget = suc settings.worker_job_max_retries

  pub publish_budget :
      (taken table : List IndexJob) (q : InlineQueue)
      → let (_, q', count) = publish inline_queue taken table q in
        total_budget q'.jobs ≡ total_budget q.jobs + full_budget * count
  unfolding publish enqueue is_retryable
  publish_budget [] table q = omega arith
  publish_budget (job ∷ taken) table q =
      let (next, _) = enqueue JobType.index_document (message inline_queue job) q in
      omega (
        arith,
        publish_budget taken table next,
        total_budget-append q.jobs (published_job job q ∷ []),
      )

  module _ (outcomes : Job → ℕ → Outcome) (writes : Job → ℕ → List IndexJob → List IndexJob) where
    process_batch_budget :
        (jobs : List Job) (w : Worker InlineQueue)
        → total_budget (process_batch inline_queue settings outcomes writes jobs w).queue.jobs
            + length jobs
          ≤ total_budget w.queue.jobs + total_budget jobs
    unfolding process_batch
    process_batch_budget [] w = omega arith
    process_batch_budget (job ∷ jobs) w =
        let outcome = outcomes job w.jobs_started in
        omega (
          arith,
          process_job-budget outcome job w,
          process_batch_budget jobs (record (process_job inline_queue settings outcome job w) {
            index_jobs = writes job w.jobs_started w.index_jobs;
          }),
        )

    pub process_available_budget :
        (w : Worker InlineQueue) (job : Job) (jobs : List Job)
        → w.queue.jobs ≡ job ∷ jobs
        → total_budget (process_available inline_queue settings outcomes writes w).queue.jobs
          < total_budget w.queue.jobs
    unfolding process_available
    process_available_budget w job jobs e =
        let n = max 1 settings.worker_concurrency in
        let (q, batch) = dequeue_batch inline_queue settings n w.queue in
        omega (
          arith,
          process_batch_budget batch (record w { queue = q }),
          dequeue_batch_budget n w.queue w.queue.jobs refl,
          dequeue_batch_some n w.queue job jobs e (omega arith),
        )

    pub process_available_empty :
        (w : Worker InlineQueue)
        → w.queue.jobs ≡ []
        → (process_available inline_queue settings outcomes writes w).queue.jobs ≡ []
    unfolding process_available process_batch
    process_available_empty w e =
        ground (arith, dequeue_batch_empty (max 1 settings.worker_concurrency) w.queue e)
