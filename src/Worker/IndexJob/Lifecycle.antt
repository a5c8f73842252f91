-- ===== src/Worker/IndexJob/Lifecycle.antt =====
-- The lifecycle of an index job under redelivery.
use ops_incident_core.Prelude.{
  ℕ, ◌+◌, ◌-◌, ◌≤◌, ◌<◌, ◌≡◌, ◌≢◌, ◌⊎◌, inr, Bool, true, false, none, List, [], ◌∷◌, arith, is_some,
}
use ops_incident_core.Settings.{Settings}
use ops_incident_core.Db.{IndexJob, IndexStatus}
use ops_incident_core.Worker.IndexJob.Row.{IndexOutcome, indexed, threw, cut_off, run_index_job}

-- A job that no dispatcher publishes again.
abbrev pub is_terminal : IndexStatus → Bool
is_terminal IndexStatus.completed = true
is_terminal IndexStatus.failed = true
is_terminal IndexStatus.stale = true
is_terminal _ = false

-- What every committed row satisfies: no attempt is left `running`, a job that waits has attempts
-- left and no finish time, and a job that is over has a finish time.
pub record IsConsistent (settings : Settings) (job : IndexJob) : Type 0 where
  pub within : job.attempts ≤ settings.rag_index_max_retries
  pub settled : job.status ≢ IndexStatus.running
  pub retriable :
      is_terminal job.status ≡ false
      → (job.attempts < settings.rag_index_max_retries) × (job.finished_at ≡ none)
  pub stamped : is_terminal job.status ≡ true → is_some job.finished_at ≡ true

-- Every delivery keeps the row consistent, whatever the indexer does.
pub run_index_job-IsConsistent :
    (settings : Settings) (now : ℕ) (outcome : IndexOutcome) (job : IndexJob)
    → IsConsistent settings job
    → IsConsistent settings (run_index_job settings now outcome job).0
unfolding run_index_job
run_index_job-IsConsistent settings now (indexed chunks []) job v = ground arith
run_index_job-IsConsistent settings now (indexed chunks (e ∷ es)) job v = ground arith
run_index_job-IsConsistent settings now (threw e) job v = ground arith
run_index_job-IsConsistent settings now cut_off job v = ground arith

-- The row after a sequence of deliveries, each with its time and the indexer's outcome.
unfoldable pub deliver : Settings → List (ℕ × IndexOutcome) → IndexJob → IndexJob
deliver settings [] job = job
deliver settings ((now, outcome) ∷ rest) job =
    deliver settings rest (run_index_job settings now outcome job).0

deliver-IsConsistent :
    (settings : Settings) (deliveries : List (ℕ × IndexOutcome)) (job : IndexJob)
    → IsConsistent settings job
    → IsConsistent settings (deliver settings deliveries job)
unfolding deliver
deliver-IsConsistent settings [] job v = v
deliver-IsConsistent settings ((now, outcome) ∷ rest) job v =
    deliver-IsConsistent settings rest (run_index_job settings now outcome job).0
      (run_index_job-IsConsistent settings now outcome job v)

-- A job that every later delivery leaves alone.
abbrev is_absorbed : IndexStatus → Bool
is_absorbed IndexStatus.completed = true
is_absorbed IndexStatus.stale = true
is_absorbed _ = false

run_index_job_absorbed :
    (settings : Settings) (now : ℕ) (outcome : IndexOutcome) (job : IndexJob)
    → is_absorbed job.status ≡ true
    → (run_index_job settings now outcome job).0 ≡ job
unfolding run_index_job
run_index_job_absorbed settings now outcome job h = ground arith

-- The deliveries that the time limit has not cut off.
abbrev pub uncut : IndexOutcome → ℕ
uncut cut_off = 0
uncut _ = 1

abbrev pub count_uncut : List (ℕ × IndexOutcome) → ℕ
count_uncut [] = 0
count_uncut (delivery ∷ rest) = uncut delivery.1 + count_uncut rest

-- A delivery that is not cut off spends an attempt, unless the job is absorbed or its attempts are
-- spent; no delivery gives one back.
run_index_job_progress :
    (settings : Settings) (now : ℕ) (outcome : IndexOutcome) (job : IndexJob)
    → IsConsistent settings job
    → (is_absorbed (run_index_job settings now outcome job).0.status ≡ true)
      ⊎ (settings.rag_index_max_retries - (run_index_job settings now outcome job).0.attempts
          ≤ settings.rag_index_max_retries - job.attempts - uncut outcome)
unfolding run_index_job
run_index_job_progress settings now (indexed chunks []) job v = ground arith
run_index_job_progress settings now (indexed chunks (e ∷ es)) job v = ground arith
run_index_job_progress settings now (threw e) job v = ground arith
run_index_job_progress settings now cut_off job v = ground arith

deliver-is_terminal :
    (settings : Settings) (deliveries : List (ℕ × IndexOutcome)) (job : IndexJob)
    → IsConsistent settings job
    → (is_absorbed job.status ≡ true)
      ⊎ (settings.rag_index_max_retries - job.attempts ≤ count_uncut deliveries)
    → is_terminal (deliver settings deliveries job).status ≡ true
unfolding deliver
deliver-is_terminal settings [] job v h = ground arith
deliver-is_terminal settings ((now, outcome) ∷ rest) job v h =
    deliver-is_terminal settings rest (run_index_job settings now outcome job).0
      (run_index_job-IsConsistent settings now outcome job v)
      (ground (
        arith,
        run_index_job_absorbed settings now outcome job,
        run_index_job_progress settings now outcome job v,
      ))

-- As many deliveries as there are attempts left end the job, whether the indexer returns or
-- raises, and in whatever order others come that the time limit cuts off: those spend no attempt
-- and are not counted. The attempts never pass the limit.
pub deliver_terminates :
    (settings : Settings) (deliveries : List (ℕ × IndexOutcome)) (job : IndexJob)
    → IsConsistent settings job
    → settings.rag_index_max_retries - job.attempts ≤ count_uncut deliveries
    → (is_terminal (deliver settings deliveries job).status ≡ true)
      × ((deliver settings deliveries job).attempts ≤ settings.rag_index_max_retries)
deliver_terminates settings deliveries job v h = (
  deliver-is_terminal settings deliveries job v (inr h),
  (deliver-IsConsistent settings deliveries job v).within,
)
