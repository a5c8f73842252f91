-- ===== src/Worker/Dispatch/Selection.antt =====
-- Which rows a round of the dispatcher takes.
use mathlib.Core.List.{perm_middle}
use mathlib.Core.List.Perm
use ops_incident_core.Prelude.{
  ℕ, ◌+◌, Option, none, some, refl, ◌<◌, ◌≡◌, ◌⊎◌, Bool, true, false, not, ◌&&◌, List, [], ◌∷◌,
  arith, All, All-take, All-sort_by, IsSortedBy, IsOrder, sort_by, sort_by-IsSortedBy, sort_by-perm,
  Perm, drop, take-append-drop, min, inl, inr, Bool-cases, ◌++◌, length, length-take, select,
}
use ops_incident_core.Settings.{Settings}
use ops_incident_core.Db.{IndexJob, IndexStatus}
use ops_incident_core.Worker.Dispatch.{is_recoverable, older, queued_before, select_jobs}

pub older-IsOrder : IsOrder older
older-IsOrder = record { total = λ x y h. ground arith; trans = λ x y z h k. ground arith }

All-select :
    (P : IndexJob → Type 0) (p : IndexJob → Bool) (jobs : List IndexJob)
    → All P jobs
    → All (λ j. P j × (p j ≡ true)) (select p jobs)
All-select P p [] h = tt
All-select P p (j ∷ js) h = ground (arith, All-select P p js h.1)

module _ (settings : Settings) (now : ℕ) (locked : ℕ → Bool) where
  -- What holds of every row holds of the rows taken, which are recoverable and not locked.
  pub select_jobs-All :
      (P : IndexJob → Type 0) (jobs : List IndexJob)
      → All P jobs
      → All
          (λ j. P j × ((is_recoverable settings now j && not (locked j.id)) ≡ true))
          (select_jobs settings now locked jobs)
  unfolding select_jobs
  select_jobs-All P jobs h = All-take _ settings.rag_index_dispatch_batch_size _ (
      All-sort_by older _ _
        (All-select P (λ j. is_recoverable settings now j && not (locked j.id)) jobs h))

-- What the dispatcher may publish: a job with attempts left that waits, or that was queued longer
-- ago than the claim time.
abbrev pub IsAbandoned : Settings → ℕ → IndexJob → Type 0
IsAbandoned settings now job =
    (job.status ≡ IndexStatus.pending)
    ⊎ ((t : ℕ) × (job.status ≡ IndexStatus.queued)
        × (job.queued_at ≡ some t)
        × (t + settings.job_queue_claim_idle_ms < now))

abbrev pub MayPublish : Settings → ℕ → (ℕ → Bool) → IndexJob → Type 0
MayPublish settings now locked job =
    (job.attempts < settings.rag_index_max_retries)
    × IsAbandoned settings now job
    × (locked job.id ≡ false)

queued_before_lem :
    (now idle : ℕ) (o : Option ℕ)
    → queued_before now idle o ≡ true
    → (t : ℕ) × (o ≡ some t) × (t + idle < now)
queued_before_lem now idle none h = cc
queued_before_lem now idle (some t) h = (t, refl, ground arith)

MayPublish_lem :
    (settings : Settings) (now : ℕ) (locked : ℕ → Bool) (job : IndexJob)
    → (is_recoverable settings now job && not (locked job.id)) ≡ true
    → MayPublish settings now locked job
unfolding is_recoverable
MayPublish_lem settings now locked job h =
    ground (arith, queued_before_lem now settings.job_queue_claim_idle_ms job.queued_at)

All-MayPublish :
    (settings : Settings) (now : ℕ) (locked : ℕ → Bool) (jobs : List IndexJob)
    → All (λ j. Unit {0} × ((is_recoverable settings now j && not (locked j.id)) ≡ true)) jobs
    → All (MayPublish settings now locked) jobs
All-MayPublish settings now locked [] h = tt
All-MayPublish settings now locked (j ∷ js) h =
    (MayPublish_lem settings now locked j h.0.1, All-MayPublish settings now locked js h.1)

All-tt : (jobs : List IndexJob) → All (λ _. Unit {0}) jobs
All-tt [] = tt
All-tt (j ∷ js) = (tt, All-tt js)

-- Nothing that may be published is passed over by the test of the query.
MayPublish-is_recoverable :
    (settings : Settings) (now : ℕ) (locked : ℕ → Bool) (job : IndexJob)
    → MayPublish settings now locked job
    → (is_recoverable settings now job && not (locked job.id)) ≡ true
unfolding is_recoverable
MayPublish-is_recoverable settings now locked job (left, inl waits, free) =
    rw (waits, free) (ground arith)
MayPublish-is_recoverable settings now locked job (left, inr (t, waits, at, before), free) =
    rw (waits, at, free) (ground arith)

-- The rows of a test and the other rows are all the rows.
select_partition :
    (p : IndexJob → Bool) (jobs : List IndexJob)
    → Perm (select p jobs ++ select (λ j. not (p j)) jobs) jobs
select_partition p [] = Perm.rfl
select_partition p (j ∷ js) = elim (Bool-cases (p j)) [
  | inl t ↦ rw t (Perm.cons j (select_partition p js))
  | inr f ↦ rw f (
      Perm.trans (perm_middle (select p js) (select (λ x. not (p x)) js))
        (Perm.cons j (select_partition p js)))
]

refused_rows :
    (settings : Settings) (now : ℕ) (locked : ℕ → Bool) (jobs : List IndexJob)
    → All
        (λ j. ¬ (MayPublish settings now locked j))
        (select (λ j. not (is_recoverable settings now j && not (locked j.id))) jobs)
refused_rows settings now locked [] = tt
refused_rows settings now locked (j ∷ js) =
    elim (Bool-cases (is_recoverable settings now j && not (locked j.id))) [
      | inl t ↦ rw t (refused_rows settings now locked js)
      | inr f ↦ rw f (
        λ m. absurd (cc (MayPublish-is_recoverable settings now locked j m, f)),
        refused_rows settings now locked js,
      )
    ]

-- A round takes the oldest of the rows that it may publish, as many as a batch holds or as there
-- are: the table is made of the rows taken, of rows left for a later round, which come after them
-- in the order of creation, and of rows that it may not publish. A row may be published that has
-- attempts left, is not locked, and is pending, or queued longer ago than the claim time.
pub select_jobs_lem :
    (settings : Settings) (now : ℕ) (locked : ℕ → Bool) (jobs : List IndexJob)
    → let taken = select_jobs settings now locked jobs in
      (left_over : List IndexJob) × (refused : List IndexJob) × Perm
        ((taken ++ left_over) ++ refused)
        jobs
      × IsSortedBy older (taken ++ left_over)
      × (length taken ≡ min settings.rag_index_dispatch_batch_size (length (taken ++ left_over)))
      × All (MayPublish settings now locked) (taken ++ left_over)
      × All (λ j. ¬ (MayPublish settings now locked j)) refused
unfolding select_jobs
select_jobs_lem settings now locked jobs =
    let n = settings.rag_index_dispatch_batch_size in
    let test = λ (j : IndexJob). is_recoverable settings now j && not (locked j.id) in
    let waiting = select test jobs in
    let sorted = sort_by older waiting in
    let whole = take-append-drop n sorted in
    (
      drop n sorted,
      select (λ j. not (test j)) jobs,
      rw whole (
          Perm.trans
            (Perm.append_right (select (λ j. not (test j)) jobs) (sort_by-perm older waiting))
            (select_partition test jobs)),
      rw whole (sort_by-IsSortedBy older older-IsOrder waiting),
      rw whole (length-take n sorted),
      rw whole (
          All-MayPublish settings now locked sorted
            (All-sort_by older _ _ (All-select (λ _. Unit {0}) test jobs (All-tt jobs)))),
      refused_rows settings now locked jobs,
    )
