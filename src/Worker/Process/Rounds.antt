-- ===== src/Worker/Process/Rounds.antt =====
-- Rounds of the worker, each with its dispatch, over the queue of the process.
use ops_incident_core.Prelude.{
  ℕ, ◌+◌, ◌*◌, ◌≡◌, inl, inr, refl, List, [], ◌∷◌, arith, length, Bool-cases, length-append,
}
use ops_incident_core.Settings.{Settings}
use ops_incident_core.Db.{IndexJob}
use ops_incident_core.Worker.Queue.Job.{Job, JobType}
use ops_incident_core.Worker.Queue.Inline.{InlineQueue, inline_queue, enqueue}
use ops_incident_core.Worker.Dispatch.{
  publish, message, dispatch_recoverable_index_jobs, select_jobs, mark_queued,
}
use ops_incident_core.Worker.Process.{Outcome, Worker, Round, dispatch_jobs}
use ops_incident_core.Worker.Process.Termination.{total_budget, full_budget, publish_budget}

-- What a dispatch does to the queue: a job for each that it counts.
pub record IsDispatch (settings : Settings) (w w' : Worker InlineQueue) (count : ℕ) : Type 0 where
  pub published : w'.jobs_published ≡ w.jobs_published + count
  pub queued : length w'.queue.jobs ≡ length w.queue.jobs + count
  pub budget :
      total_budget settings w'.queue.jobs
      ≡ total_budget settings w.queue.jobs + full_budget settings * count
  pub same_failed : w'.queue.failed ≡ w.queue.failed

publish_queue :
    (taken table : List IndexJob) (q : InlineQueue)
    → let (_, q', count) = publish inline_queue taken table q in
      (length q'.jobs ≡ length q.jobs + count) × (q'.failed ≡ q.failed)
unfolding publish enqueue
publish_queue [] table q = (omega arith, refl)
publish_queue (job ∷ taken) table q =
    let (next, _) = enqueue JobType.index_document (message inline_queue job) q in
    let (count, same) = publish_queue taken table next in
    (
      omega (
        arith,
        count,
        length-append q.jobs (
            record {
              id = q.next_id;
              job_type = JobType.index_document;
              payload = message inline_queue job;
            }
            ∷ []),
      ),
      same,
    )

module _ (settings : Settings) (outcomes : Job → ℕ → Outcome)
    (writes : Job → ℕ → List IndexJob → List IndexJob) where
  pub dispatch_jobs-IsDispatch :
      (round : Round) (w : Worker InlineQueue)
      → let (_, _, count) =
          dispatch_recoverable_index_jobs inline_queue settings round.now round.locked
            (round.committed w.index_jobs)
            w.queue in
        IsDispatch settings w (dispatch_jobs inline_queue settings outcomes writes round w) count
  unfolding dispatch_jobs dispatch_recoverable_index_jobs
  dispatch_jobs-IsDispatch round w =
      let taken = select_jobs settings round.now round.locked (round.committed w.index_jobs) in
      let table = mark_queued round.now taken (round.committed w.index_jobs) in
      elim (Bool-cases settings.rag_async_indexing) [
        | inl t ↦ simp t (record {
          published = refl;
          queued = (publish_queue taken table w.queue).0;
          budget = publish_budget settings taken table w.queue;
          same_failed = (publish_queue taken table w.queue).1;
        })
        | inr f ↦ simp f (record {
          published = refl;
          queued = omega arith;
          budget = omega arith;
          same_failed = refl;
        })
      ]
