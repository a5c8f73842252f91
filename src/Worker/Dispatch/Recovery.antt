-- ===== src/Worker/Dispatch/Recovery.antt =====
-- What a round of the dispatcher does to the table of jobs and to the queue.
use ops_incident_core.Prelude.{
  ℕ, ◌≡◌, refl, ap, ◌∙◌, Bool, true, not, ◌&&◌, some, List, [], ◌∷◌, map, arith, All, any,
  Bool-cases, inl, inr, ◌==◌,
}
use ops_incident_core.Settings.{Settings}
use ops_incident_core.Db.{IndexJob, find_row}
use ops_incident_core.Worker.Queue.Job.{JobQueue, JobType}
use ops_incident_core.Worker.Queue.Inline.{enqueue}
use ops_incident_core.Worker.IndexJob.Lifecycle.{IsConsistent}
use ops_incident_core.Worker.Dispatch.{
  is_recoverable, is_queued, select_jobs, mark_row, mark_queued, release_row, release, message,
  publish, dispatch_recoverable_index_jobs,
}
use ops_incident_core.Worker.Dispatch.Selection.{select_jobs-All}

-- The table has a primary key: each row is the one that its id finds.
abbrev pub IsKeyed : List IndexJob → Type 0
IsKeyed jobs = All (λ j. find_row IndexJob.id j.id jobs ≡ some j) jobs

-- What the dispatcher never writes.
abbrev pub spent : List IndexJob → List (ℕ × ℕ)
spent = map (λ j. (j.id, j.attempts))

spent-mark_queued :
    (now : ℕ) (taken jobs : List IndexJob) → spent (mark_queued now taken jobs) ≡ spent jobs
unfolding mark_queued mark_row
spent-mark_queued now taken [] = refl
spent-mark_queued now taken (r ∷ rs) = elim (Bool-cases (any (λ j. j.id == r.id) taken)) [
  | inl t ↦ rw t (ap (λ xs. (r.id, r.attempts) ∷ xs) (spent-mark_queued now taken rs))
  | inr f ↦ rw f (ap (λ xs. (r.id, r.attempts) ∷ xs) (spent-mark_queued now taken rs))
]

spent-release : (k : ℕ) (jobs : List IndexJob) → spent (release k jobs) ≡ spent jobs
unfolding release release_row
spent-release k [] = refl
spent-release k (r ∷ rs) = elim (Bool-cases (r.id == k && is_queued r.status)) [
  | inl t ↦ rw t (ap (λ xs. (r.id, r.attempts) ∷ xs) (spent-release k rs))
  | inr f ↦ rw f (ap (λ xs. (r.id, r.attempts) ∷ xs) (spent-release k rs))
]

spent-publish :
    {Q : Type 0} (queue : JobQueue Q) (taken jobs : List IndexJob) (q : Q)
    → spent (publish queue taken jobs q).0 ≡ spent jobs
unfolding publish
spent-publish queue [] jobs q = refl
spent-publish queue (job ∷ taken) jobs q =
    elim (Bool-cases (queue.enqueue JobType.index_document (message queue job) q).1) [
      | inl t ↦ rw t (spent-publish queue taken jobs _)
      | inr f ↦ rw f (spent-publish queue taken (release job.id jobs) _ ∙ spent-release job.id jobs)
    ]

module _ (settings : Settings) (now : ℕ) (locked : ℕ → Bool) where
  -- A row that is marked is itself a row that was taken.
  marked-is_recoverable :
      (jobs taken : List IndexJob) (r : IndexJob)
      → All
          (λ j.
            (find_row IndexJob.id j.id jobs ≡ some j)
            × ((is_recoverable settings now j && not (locked j.id)) ≡ true))
          taken
      → find_row IndexJob.id r.id jobs ≡ some r
      → any (λ j. j.id == r.id) taken ≡ true
      → is_recoverable settings now r ≡ true
  marked-is_recoverable jobs [] r h e m = cc
  marked-is_recoverable jobs (j ∷ js) r h e m =
      ground (arith, marked-is_recoverable jobs js r h.1 e)

  mark_row-IsConsistent :
      (taken : List IndexJob) (r : IndexJob)
      → (any (λ j. j.id == r.id) taken ≡ true → is_recoverable settings now r ≡ true)
      → IsConsistent settings r
      → IsConsistent settings (mark_row now taken r)
  unfolding mark_row is_recoverable
  mark_row-IsConsistent taken r h v = ground arith

  mark_queued-IsConsistent :
      (all taken jobs : List IndexJob)
      → All
          (λ j.
            (find_row IndexJob.id j.id all ≡ some j)
            × ((is_recoverable settings now j && not (locked j.id)) ≡ true))
          taken
      → All (λ j. find_row IndexJob.id j.id all ≡ some j) jobs
      → All (IsConsistent settings) jobs
      → All (IsConsistent settings) (mark_queued now taken jobs)
  unfolding mark_queued
  mark_queued-IsConsistent all taken [] h k v = tt
  mark_queued-IsConsistent all taken (r ∷ rs) h k v = (
    mark_row-IsConsistent taken r (marked-is_recoverable all taken r h k.0) v.0,
    mark_queued-IsConsistent all taken rs h k.1 v.1,
  )

  release-IsConsistent :
      (k : ℕ) (jobs : List IndexJob)
      → All (IsConsistent settings) jobs
      → All (IsConsistent settings) (release k jobs)
  unfolding release release_row
  release-IsConsistent k [] v = tt
  release-IsConsistent k (r ∷ rs) v = (ground arith, release-IsConsistent k rs v.1)

  module _ {Q : Type 0} (queue : JobQueue Q) where
    publish-IsConsistent :
        (taken jobs : List IndexJob) (q : Q)
        → All (IsConsistent settings) jobs
        → All (IsConsistent settings) (publish queue taken jobs q).0
    unfolding publish
    publish-IsConsistent [] jobs q v = v
    publish-IsConsistent (job ∷ taken) jobs q v =
        elim (Bool-cases (queue.enqueue JobType.index_document (message queue job) q).1) [
          | inl t ↦ rw t (publish-IsConsistent taken jobs _ v)
          | inr f ↦ rw f (
              publish-IsConsistent taken (release job.id jobs) _
                (release-IsConsistent job.id jobs v))
        ]

    -- A round keeps every row of the table consistent, and its identifier and attempts as they
    -- were, whatever the queue does with the messages. The table has a primary key.
    pub dispatch-IsConsistent :
        (jobs : List IndexJob) (q : Q)
        → IsKeyed jobs
        → All (IsConsistent settings) jobs
        → let jobs' = (dispatch_recoverable_index_jobs queue settings now locked jobs q).0 in
          All (IsConsistent settings) jobs' × (spent jobs' ≡ spent jobs)
    unfolding dispatch_recoverable_index_jobs
    dispatch-IsConsistent jobs q k v =
        let taken = select_jobs settings now locked jobs in
        elim (Bool-cases settings.rag_async_indexing) [
          | inl t ↦ simp t (
            publish-IsConsistent taken (mark_queued now taken jobs) q (
                mark_queued-IsConsistent jobs taken jobs
                  (select_jobs-All settings now locked _ jobs k) k v),
            spent-publish queue taken (mark_queued now taken jobs) q
                ∙ spent-mark_queued now taken jobs,
          )
          | inr f ↦ simp f (v, refl)
        ]
