-- ===== src/Worker/Dispatch.antt =====
-- Recovery of index jobs: `dispatch_recoverable_index_jobs` of
-- incidentops/worker/index_dispatch.py. Times are milliseconds; `locked` says which rows another
-- session holds, and `now` is the clock.
pub mod Selection
pub mod Recovery
use ops_incident_core.Prelude.{
  ℕ, ◌+◌, ◌&&◌, ◌||◌, Bool, true, false, not, Option, none, some, List, [], ◌∷◌, map, if◌then◌else◌,
  any, select, take, sort_by, ltb, leb, ◌==◌,
}
use ops_incident_core.Settings.{Settings}
use ops_incident_core.Db.{IndexJob, IndexStatus}
use ops_incident_core.Worker.Queue.Job.{JobQueue, JobType, Payload}

abbrev pub is_pending : IndexStatus → Bool
is_pending IndexStatus.pending = true
is_pending _ = false

abbrev pub is_queued : IndexStatus → Bool
is_queued IndexStatus.queued = true
is_queued _ = false

-- `IndexJob.queued_at < now - claim_idle`; a null time compares as false.
abbrev pub queued_before : ℕ → ℕ → Option ℕ → Bool
queued_before now idle none = false
queued_before now idle (some t) = ltb (t + idle) now

-- The `where` clause.
unfoldable pub is_recoverable : Settings → ℕ → IndexJob → Bool
is_recoverable settings now job =
    ltb job.attempts settings.rag_index_max_retries
    && (is_pending job.status
        || is_queued job.status && queued_before now settings.job_queue_claim_idle_ms job.queued_at)

abbrev pub older : IndexJob → IndexJob → Bool
older a b = leb a.created_at b.created_at

-- The rows that one round takes: recoverable, not locked, oldest first, a batch at most.
unfoldable pub select_jobs : Settings → ℕ → (ℕ → Bool) → List IndexJob → List IndexJob
unfolding is_recoverable
select_jobs settings now locked jobs =
    take settings.rag_index_dispatch_batch_size
      (sort_by older (select (λ j. is_recoverable settings now j && not (locked j.id)) jobs))

-- `job.status = "queued"; job.queued_at = now` on the rows taken.
unfoldable pub mark_row : ℕ → List IndexJob → IndexJob → IndexJob
mark_row now taken r =
    if any (λ j. j.id == r.id) taken
    then record r { status = IndexStatus.queued; queued_at = some now }
    else r

unfoldable pub mark_queued : ℕ → List IndexJob → List IndexJob → List IndexJob
mark_queued now taken = map (mark_row now taken)

-- The update after a failed publication: only a row that is still queued goes back.
unfoldable pub release_row : ℕ → IndexJob → IndexJob
release_row k r =
    if r.id == k && is_queued r.status
    then record r { status = IndexStatus.pending; queued_at = none }
    else r

unfoldable pub release : ℕ → List IndexJob → List IndexJob
release k = map (release_row k)

module _ {Q : Type 0} (queue : JobQueue Q) where
  open queue use {enqueue}

  -- The message carries the durable id and no content.
  abbrev pub message : IndexJob → Payload
  message job = record { target = job.id; operational_run_id = none; worker_attempt = 0 }

  -- The loop over the rows taken: the table, the queue, and the number published.
  unfoldable pub publish : List IndexJob → List IndexJob → Q → List IndexJob × Q × ℕ
  publish [] jobs q = (jobs, q, 0)
  publish (job ∷ taken) jobs q =
      let (q', published) = enqueue JobType.index_document (message job) q in
      let (jobs', q'', count) =
        publish taken (if published then jobs else release job.id jobs) q' in
      (jobs', q'', if published then count + 1 else count)

  unfoldable pub dispatch_recoverable_index_jobs :
      Settings → ℕ → (ℕ → Bool) → List IndexJob → Q → List IndexJob × Q × ℕ
  unfolding publish
  dispatch_recoverable_index_jobs settings now locked jobs q =
      if settings.rag_async_indexing
      then (let taken = select_jobs settings now locked jobs in
          publish taken (mark_queued now taken jobs) q)
      else (jobs, q, 0)
