-- ===== src/Examples/Queues.antt =====
-- Queues, rounds of the dispatcher and of the worker.
use ops_incident_core.Prelude.{
  ℕ, ◌+◌, ◌≤◌, ◌≡◌, refl, Bool, true, false, none, some, List, [], ◌∷◌, ◌++◌, map, arith, All,
  length, IsSortedBy, ◌*◌, take, min, Perm,
}
use ops_incident_core.Db.{IndexJob, IndexStatus}
use ops_incident_core.Worker.Queue.Job.{Job, JobType, Payload}
use ops_incident_core.Worker.Queue.Inline.{
  InlineQueue, inline_queue, enqueue_all, dequeue_all, request, dequeue_all-enqueue_all, enqueue,
  pop_left, acknowledge, fail,
}
use ops_incident_core.Worker.Queue.Inline
use ops_incident_core.Worker.Queue.Redis.{
  Entry, StreamServer, RedisQueue, dequeue, ensure_group, next_entries, take_entry,
}
use ops_incident_core.Worker.IndexJob.Lifecycle.{IsConsistent}
use ops_incident_core.Worker.Dispatch.{
  older, is_recoverable, select_jobs, dispatch_recoverable_index_jobs, publish, mark_queued,
  mark_row,
}
use ops_incident_core.Worker.Dispatch.Selection.{select_jobs_lem, MayPublish}
use ops_incident_core.Worker.Dispatch.Recovery.{spent, dispatch-IsConsistent}
use ops_incident_core.Worker.Process.{
  Outcome, raised, Worker, run_worker, is_retryable, Round, run_round, dispatch_jobs,
  process_available, process_batch, process_job, handle_failure, can_retry, dequeue_batch,
  mark_operational_failure,
}
use ops_incident_core.Worker.Process.Termination.{total_budget, full_budget}
use ops_incident_core.Worker.Process.Accounting.{run_worker_drains}
use ops_incident_core.Examples.Rows.{settings, waiting_job}

abbrev payload : ℕ → Payload
payload k = record { target = k; operational_run_id = none; worker_attempt = 0 }

abbrev empty_queue : InlineQueue
empty_queue = record { jobs = []; failed = []; next_id = 1 }

abbrev two_requests : List (JobType × Payload)
two_requests = (JobType.index_document, payload 1) ∷ (JobType.execute_eval_run, payload 2) ∷ []

dequeue_all-enqueue_all_example :
    let (q', jobs) = dequeue_all 2 (enqueue_all two_requests empty_queue) in
    (map request jobs ≡ two_requests) × (q'.jobs ≡ [])
dequeue_all-enqueue_all_example =
    dequeue_all-enqueue_all two_requests empty_queue 2 refl (omega arith)

abbrev some_job : Job
some_job = record { id = 9; job_type = JobType.index_document; payload = payload 1 }

-- A server whose state is the stream and the acknowledged message ids.
abbrev Stream : Type 0
Stream = List Entry × List ℕ

abbrev server : StreamServer Stream
server = record {
  fresh_id = λ s. length s.0;
  xgroup_create = λ s. (s, true);
  xadd = λ job s. ((s.0 ++ (length s.0, some job) ∷ [], s.1), true);
  xadd_failed = λ k e s. s;
  xautoclaim = λ s. (s, some []);
  xreadgroup = λ s. (s, s.0);
  xack = λ m s. (s.0, m ∷ s.1);
}

abbrev redis_queue : RedisQueue Stream
redis_queue = record { server = ((4, some some_job) ∷ [], []); group_ready = false; inflight = [] }

hands_out : (dequeue server redis_queue).1 ≡ some some_job
unfolding dequeue ensure_group next_entries take_entry
hands_out = refl

abbrev unlocked : ℕ → Bool
unlocked k = false

abbrev table : List IndexJob
table =
    waiting_job
    ∷ record waiting_job { id = 2; status = IndexStatus.queued; queued_at = some 5 }
    ∷ []

table-IsConsistent : All (IsConsistent settings) table
table-IsConsistent = (ground arith, (ground arith, tt))

select_jobs_lem_example :
    let taken = select_jobs settings 90000 unlocked table in
    (left_over : List IndexJob) × (refused : List IndexJob) × Perm
      ((taken ++ left_over) ++ refused)
      table
    × IsSortedBy older (taken ++ left_over)
    × (length taken ≡ min settings.rag_index_dispatch_batch_size (length (taken ++ left_over)))
    × All (MayPublish settings 90000 unlocked) (taken ++ left_over)
    × All (λ j. ¬ (MayPublish settings 90000 unlocked j)) refused
select_jobs_lem_example = select_jobs_lem settings 90000 unlocked table

-- Both rows are taken: the pending one, and the one queued more than a minute before.
takes_both : length (select_jobs settings 90000 unlocked table) ≡ 2
unfolding select_jobs is_recoverable
takes_both = refl

dispatch-IsConsistent_example :
    let jobs' =
      (dispatch_recoverable_index_jobs inline_queue settings 90000 unlocked table empty_queue).0 in
    All (IsConsistent settings) jobs' × (spent jobs' ≡ spent table)
dispatch-IsConsistent_example =
    dispatch-IsConsistent settings 90000 unlocked inline_queue table empty_queue (refl, (refl, tt))
      table-IsConsistent

abbrev worker : Worker InlineQueue
worker = record {
  queue = record empty_queue { jobs = some_job ∷ [] };
  jobs_started = 0;
  jobs_completed = 0;
  jobs_failed = 0;
  jobs_retried = 0;
  marked = [];
  index_jobs = table;
  jobs_published = 0;
}

abbrev always_raises : Job → ℕ → Outcome
always_raises job n = raised "valueerror"

abbrev rounds : List Round
rounds =
    record { now = 90000; locked = unlocked; committed = λ jobs. jobs }
    ∷ record { now = 90001; locked = unlocked; committed = λ jobs. jobs }
    ∷ []

abbrev leave_table : Job → ℕ → List IndexJob → List IndexJob
leave_table job n jobs = jobs

run_worker_drains_example :
    let w' = run_worker inline_queue settings always_raises leave_table rounds worker in
    (length w'.queue.jobs + w'.jobs_completed + length w'.queue.failed + 0
      ≡ 1 + 0 + 0 + w'.jobs_published)
    × (total_budget settings worker.queue.jobs + full_budget settings * w'.jobs_published
          ≤ 2 + full_budget settings * 0
        → (n : ℕ) × (n ≤ 2)
          × ((run_worker inline_queue settings always_raises leave_table
                (take n rounds)
                worker).queue.jobs
              ≡ []))
run_worker_drains_example = run_worker_drains settings rounds always_raises leave_table worker

-- The dispatcher publishes both rows in the first round, so that three jobs are there in all.
publishes_both :
    (run_worker inline_queue settings always_raises leave_table rounds worker).jobs_published ≡ 2
unfolding run_worker run_round dispatch_jobs dispatch_recoverable_index_jobs publish select_jobs
    is_recoverable mark_queued mark_row process_available process_batch process_job handle_failure
    can_retry is_retryable dequeue_batch Inline.dequeue pop_left enqueue acknowledge fail
    mark_operational_failure
publishes_both = refl
