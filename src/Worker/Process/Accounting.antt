-- ===== src/Worker/Process/Accounting.antt =====
-- Every job that the worker takes is accounted for, over the queue of the process.
use ops_incident_core.Prelude.{
  ℕ, zero, suc, ◌+◌, ◌*◌, ◌≤◌, ◌<◌, ◌≡◌, ◌⊎◌, inl, inr, take, refl, ap, ◌∙◌, String, List, [], ◌∷◌,
  arith, max, length, length-append,
}
use ops_incident_core.Settings.{Settings}
use ops_incident_core.Worker.Queue.Job.{Job}
use ops_incident_core.Worker.Queue.Inline.{
  InlineQueue, inline_queue, enqueue, dequeue, acknowledge, fail,
}
use ops_incident_core.Worker.Process.{
  Outcome, done, timed_out, raised, Worker, process_job, handle_failure, dequeue_batch,
  process_batch, Round, process_available, dispatch_jobs, run_round, run_worker,
}
use ops_incident_core.Worker.Process.Termination.{
  total_budget, full_budget, retried_job, process_available_budget, process_available_empty,
}
use ops_incident_core.Worker.Process.Rounds.{dispatch_jobs-IsDispatch}
use ops_incident_core.Db.{IndexJob}

-- Balances between the worker before and after, with `taken` jobs that the queue no longer holds:
-- the jobs there are, with those that the dispatcher has published, and the failures that are final.
record Balance (taken : ℕ) (w w' : Worker InlineQueue) : Type 0 where
  jobs :
      length w'.queue.jobs + w'.jobs_completed + w'.jobs_failed + w.jobs_retried + w.jobs_published
      ≡ length w.queue.jobs
        + taken
        + w.jobs_completed
        + w.jobs_failed
        + w'.jobs_retried
        + w'.jobs_published
  failures :
      length w'.queue.failed + w'.jobs_retried + w.jobs_failed
      ≡ length w.queue.failed + w.jobs_retried + w'.jobs_failed

module _ (settings : Settings) where
  handle_failure-Balance :
      (error : String) (job : Job) (w : Worker InlineQueue)
      → Balance 1 w (handle_failure inline_queue settings error job w)
  unfolding handle_failure enqueue acknowledge fail
  handle_failure-Balance error job w =
      ground (arith, length-append w.queue.jobs (retried_job settings job w.queue ∷ []))

  process_job-Balance :
      (outcome : Outcome) (job : Job) (w : Worker InlineQueue)
      → Balance 1 w (process_job inline_queue settings outcome job w)
  unfolding process_job acknowledge
  process_job-Balance done job w = omega arith
  process_job-Balance timed_out job w =
      let b =
        handle_failure-Balance "job_timeout" job (record w { jobs_started = w.jobs_started + 1 }) in
      record { jobs = b.jobs; failures = b.failures }
  process_job-Balance (raised name) job w =
      let b = handle_failure-Balance name job (record w { jobs_started = w.jobs_started + 1 }) in
      record { jobs = b.jobs; failures = b.failures }

  process_job_published :
      (outcome : Outcome) (job : Job) (w : Worker InlineQueue)
      → (process_job inline_queue settings outcome job w).jobs_published ≡ w.jobs_published
  unfolding process_job handle_failure
  process_job_published done job w = refl
  process_job_published timed_out job w = ground arith
  process_job_published (raised name) job w = ground arith

  dequeue_batch_count :
      (n : ℕ) (q : InlineQueue) (jobs : List Job)
      → q.jobs ≡ jobs
      → let (q', batch) = dequeue_batch inline_queue settings n q in
        (length q'.jobs + length batch ≡ length jobs) × (q'.failed ≡ q.failed)
  unfolding dequeue_batch dequeue
  dequeue_batch_count zero q jobs e = ground arith
  dequeue_batch_count (suc n) q [] e = ground arith
  dequeue_batch_count (suc n) q (j ∷ js) e =
      ground (arith, dequeue_batch_count n (record q { jobs = js }) js refl)

  module _ (outcomes : Job → ℕ → Outcome) (writes : Job → ℕ → List IndexJob → List IndexJob) where
    process_batch-Balance :
        (jobs : List Job) (w : Worker InlineQueue)
        → Balance (length jobs) w (process_batch inline_queue settings outcomes writes jobs w)
    unfolding process_batch
    process_batch-Balance [] w = omega arith
    process_batch-Balance (job ∷ jobs) w =
        let outcome = outcomes job w.jobs_started in
        let b = process_job-Balance outcome job w in
        let c =
          process_batch-Balance jobs (record (process_job inline_queue settings outcome job w) {
            index_jobs = writes job w.jobs_started w.index_jobs;
          }) in
        omega arith

    process_batch_published :
        (jobs : List Job) (w : Worker InlineQueue)
        → (process_batch inline_queue settings outcomes writes jobs w).jobs_published
          ≡ w.jobs_published
    unfolding process_batch
    process_batch_published [] w = refl
    process_batch_published (job ∷ jobs) w =
        process_batch_published jobs
          (record (process_job inline_queue settings (outcomes job w.jobs_started) job w) {
            index_jobs = writes job w.jobs_started w.index_jobs;
          })
        ∙ process_job_published (outcomes job w.jobs_started) job w

    process_available_published :
        (w : Worker InlineQueue)
        → (process_available inline_queue settings outcomes writes w).jobs_published
          ≡ w.jobs_published
    unfolding process_available
    process_available_published w =
        let (q, batch) =
          dequeue_batch inline_queue settings (max 1 settings.worker_concurrency) w.queue in
        process_batch_published batch (record w { queue = q })

    process_available-Balance :
        (w : Worker InlineQueue)
        → Balance 0 w (process_available inline_queue settings outcomes writes w)
    unfolding process_available
    process_available-Balance w =
        let n = max 1 settings.worker_concurrency in
        let (q, batch) = dequeue_batch inline_queue settings n w.queue in
        let b = process_batch-Balance batch (record w { queue = q }) in
        let (count, same) = dequeue_batch_count n w.queue w.queue.jobs refl in
        ground (arith, ap (length {0}) same)

    run_round-Balance :
        (round : Round) (w : Worker InlineQueue)
        → Balance 0 w (run_round inline_queue settings outcomes writes round w)
    unfolding run_round dispatch_jobs
    run_round-Balance round w =
        let dispatched = dispatch_jobs inline_queue settings outcomes writes round w in
        let d = dispatch_jobs-IsDispatch settings outcomes writes round w in
        let b = process_available-Balance dispatched in
        ground (arith, ap (length {0}) d.same_failed)

    run_worker-Balance :
        (rounds : List Round) (w : Worker InlineQueue)
        → Balance 0 w (run_worker inline_queue settings outcomes writes rounds w)
    unfolding run_worker
    run_worker-Balance [] w = omega arith
    run_worker-Balance (round ∷ rounds) w =
        let b = run_round-Balance round w in
        let c =
          run_worker-Balance rounds (run_round inline_queue settings outcomes writes round w) in
        omega arith

    -- A round in which the queue has jobs after the dispatch lowers what is left to execute.
    run_round_budget :
        (round : Round) (w : Worker InlineQueue)
        → let w' = run_round inline_queue settings outcomes writes round w in
          (w'.queue.jobs ≡ [])
          ⊎ (total_budget settings w'.queue.jobs + full_budget settings * w.jobs_published
              < total_budget settings w.queue.jobs + full_budget settings * w'.jobs_published)
    unfolding run_round
    run_round_budget round w = go _ refl
      where
        go :
            (jobs : List Job)
            → (dispatch_jobs inline_queue settings outcomes writes round w).queue.jobs ≡ jobs
            → let w' = run_round inline_queue settings outcomes writes round w in
              (w'.queue.jobs ≡ [])
              ⊎ (total_budget settings w'.queue.jobs + full_budget settings * w.jobs_published
                  < total_budget settings w.queue.jobs + full_budget settings * w'.jobs_published)
        go [] e = inl (process_available_empty settings outcomes writes _ e)
        go (j ∷ js) e =
            let dispatched = dispatch_jobs inline_queue settings outcomes writes round w in
            let d = dispatch_jobs-IsDispatch settings outcomes writes round w in
            inr (
              omega (
                arith,
                process_available_budget settings outcomes writes dispatched j js e,
                ap (λ n. full_budget settings * n)
                    (process_available_published dispatched ∙ d.published),
                d.budget,
              ))

    -- After how many rounds the queue is empty, or how little is left to execute after all.
    run_worker_budget :
        (rounds : List Round) (w : Worker InlineQueue)
        → let w' = run_worker inline_queue settings outcomes writes rounds w in
          ((n : ℕ) × (n ≤ length rounds)
            × ((run_worker inline_queue settings outcomes writes (take n rounds) w).queue.jobs
                ≡ []))
          ⊎ (total_budget settings w'.queue.jobs
                + full_budget settings * w.jobs_published
                + length rounds
              ≤ total_budget settings w.queue.jobs + full_budget settings * w'.jobs_published)
    unfolding run_worker
    run_worker_budget [] w = inr (omega arith)
    run_worker_budget (round ∷ rounds) w =
        let next = run_round inline_queue settings outcomes writes round w in
        elim (run_round_budget round w) [
          | inl e ↦ inl (1, omega arith, e)
          | inr less ↦ elim (run_worker_budget rounds next) [
            | inl (n, h, e) ↦ inl (suc n, omega (arith, h), e)
            | inr rest ↦ inr (omega (arith, less, rest))
          ]
        ]

take_all : (rounds : List Round) → take (length rounds) rounds ≡ rounds
take_all [] = refl
take_all (r ∷ rs) = ap (λ xs. r ∷ xs) (take_all rs)

nothing_left : (settings : Settings) (jobs : List Job) → total_budget settings jobs ≡ 0 → jobs ≡ []
nothing_left settings [] h = refl
nothing_left settings (j ∷ js) h = ground arith

-- However the executions end, and whatever the table of index jobs is when the dispatcher reads
-- it: the jobs in the queue, completed and failed for good grow by those that the dispatcher
-- publishes and by no others. With as many rounds as executions are left to the jobs at first, and
-- one more than the allowed retries for each that is published meanwhile, the queue is empty after
-- one of the rounds.
pub run_worker_drains :
    (settings : Settings) (rounds : List Round) (outcomes : Job → ℕ → Outcome)
    (writes : Job → ℕ → List IndexJob → List IndexJob) (w : Worker InlineQueue)
    → let w' = run_worker inline_queue settings outcomes writes rounds w in
      (length w'.queue.jobs + w'.jobs_completed + length w'.queue.failed + w.jobs_published
        ≡ length w.queue.jobs + w.jobs_completed + length w.queue.failed + w'.jobs_published)
      × (total_budget settings w.queue.jobs + full_budget settings * w'.jobs_published
            ≤ length rounds + full_budget settings * w.jobs_published
          → (n : ℕ) × (n ≤ length rounds)
            × ((run_worker inline_queue settings outcomes writes (take n rounds) w).queue.jobs
                ≡ []))
run_worker_drains settings rounds outcomes writes w =
    let b = run_worker-Balance settings outcomes writes rounds w in
    let w' = run_worker inline_queue settings outcomes writes rounds w in
    (
      omega arith,
      λ h. elim (run_worker_budget settings outcomes writes rounds w) [
        | inl found ↦ found
        | inr less ↦
            let spent : total_budget settings w'.queue.jobs ≡ 0 = omega (arith, less, h) in
            (
              length rounds,
              omega arith,
              rw (take_all rounds) (nothing_left settings w'.queue.jobs spent),
            )
      ],
    )
