-- ===== src/Worker/IndexJob/Sync.antt =====
-- What the handler keeps true of the tables: the rows of the jobs, the counters of the syncs, and
-- when a source is called ready.
use ops_incident_core.Prelude.{
  ℕ, refl, ◌≡◌, ◌≢◌, ◌⊎◌, inl, inr, ◌∙◌, Bool, true, false, none, some, List, [], ◌∷◌, subst, arith,
  All, Option-cases, Bool-cases,
}
use ops_incident_core.Settings.{Settings}
use ops_incident_core.Db.{
  Database, IndexJob, IndexStatus, Source, SourceStatus, SourceSync, find_row, update_row,
  find_row-All, update_row-All, find_row-key, find_row-update_row,
}
use ops_incident_core.Worker.IndexJob.Row.{
  IndexOutcome, indexed, threw, cut_off, returned, run_index_job,
}
use ops_incident_core.Worker.IndexJob.Lifecycle.{IsConsistent, run_index_job-IsConsistent}
use ops_incident_core.Worker.IndexJob.Handler.{
  in_sync, has_open_jobs, has_failed_jobs, settle, is_attempted, settle_source, update_sync,
  after_attempt, execute_row, execute_index_document_job,
}

after_attempt-index_jobs :
    (outcome : IndexOutcome) (job : IndexJob) (db : Database)
    → (after_attempt outcome job db).index_jobs ≡ db.index_jobs
unfolding after_attempt
after_attempt-index_jobs (indexed chunks []) job db = ground arith
after_attempt-index_jobs (indexed chunks (e ∷ es)) job db = ground arith
after_attempt-index_jobs (threw x) job db = ground arith
after_attempt-index_jobs cut_off job db = refl

pub execute_row-index_jobs :
    (settings : Settings) (now : ℕ) (outcome : IndexOutcome) (job : IndexJob) (db : Database)
    → (execute_row settings now outcome job db).0.index_jobs
      ≡ update_row IndexJob.id job.id
          (λ _. (run_index_job settings now outcome job).0)
          db.index_jobs
unfolding execute_row
execute_row-index_jobs settings now outcome job db =
    let job' = (run_index_job settings now outcome job).0 in
    ground (
      arith,
      after_attempt-index_jobs outcome job'
          (record db { index_jobs = update_row IndexJob.id job.id (λ _. job') db.index_jobs }),
    )

execute_row-IsConsistent :
    (settings : Settings) (now : ℕ) (outcome : IndexOutcome) (job : IndexJob) (db : Database)
    → All (IsConsistent settings) db.index_jobs
    → IsConsistent settings job
    → All (IsConsistent settings) (execute_row settings now outcome job db).0.index_jobs
execute_row-IsConsistent settings now outcome job db v h = rw execute_row-index_jobs (
    update_row-All IndexJob.id (IsConsistent settings) job.id _ db.index_jobs
      (λ _ _. run_index_job-IsConsistent settings now outcome job h) v)

pub execute_found :
    (settings : Settings) (now : ℕ) (outcome : IndexOutcome) (k : ℕ) (db : Database)
    {job : IndexJob}
    → find_row IndexJob.id k db.index_jobs ≡ some job
    → execute_index_document_job settings now false outcome k db
      ≡ execute_row settings now outcome job db
unfolding execute_index_document_job
execute_found settings now outcome k db e = rw (e, execute_index_document_job)

pub execute_missing :
    (settings : Settings) (now : ℕ) (outcome : IndexOutcome) (k : ℕ) (db : Database)
    → find_row IndexJob.id k db.index_jobs ≡ none
    → execute_index_document_job settings now false outcome k db ≡ (db, returned)
unfolding execute_index_document_job
execute_missing settings now outcome k db e = rw (e, execute_index_document_job)

-- A delivery keeps every row of the table of jobs consistent.
pub execute_index_document_job-IsConsistent :
    (settings : Settings) (now : ℕ) (locked : Bool) (outcome : IndexOutcome) (k : ℕ) (db : Database)
    → All (IsConsistent settings) db.index_jobs
    → All
        (IsConsistent settings)
        (execute_index_document_job settings now locked outcome k db).0.index_jobs
unfolding execute_index_document_job
execute_index_document_job-IsConsistent settings now true outcome k db v = v
execute_index_document_job-IsConsistent settings now false outcome k db v =
    elim (Option-cases (find_row IndexJob.id k db.index_jobs)) [
      | inl e ↦ rw (execute_missing settings now outcome k db e) v
      | inr (job, e) ↦ rw (execute_found settings now outcome k db e) (
          execute_row-IsConsistent settings now outcome job db v
            (find_row-All IndexJob.id (IsConsistent settings) k db.index_jobs v e))
    ]

-- The exception path touches no sync and no source.
pub execute_index_document_job_threw :
    (settings : Settings) (now : ℕ) (locked : Bool) (exception : ℕ) (k : ℕ) (db : Database)
    → let db' = (execute_index_document_job settings now locked (threw exception) k db).0 in
      (db'.syncs ≡ db.syncs) × (db'.sources ≡ db.sources)
unfolding execute_index_document_job after_attempt
execute_index_document_job_threw settings now locked exception k db = ground arith

abbrev pub IsOver : IndexStatus → Type 0
IsOver s = (s ≡ IndexStatus.completed) ⊎ (s ≡ IndexStatus.stale)

abbrev pub EndedIn : ℕ → List IndexJob → Type 0
EndedIn k = All (λ j. in_sync k j.sync_id ≡ true → IsOver j.status)

all_ended :
    (k : ℕ) (jobs : List IndexJob)
    → has_open_jobs k jobs ≡ false
    → has_failed_jobs k jobs ≡ false
    → EndedIn k jobs
unfolding has_open_jobs has_failed_jobs
all_ended k [] h g = tt
all_ended k (j ∷ js) h g = (ground arith, all_ended k js (ground arith) (ground arith))

settle_source_ready :
    (jobs : List IndexJob) (sync : SourceSync) (k : ℕ) (sources : List Source) {s s' : Source}
    → find_row Source.id k sources ≡ some s
    → s.status ≢ SourceStatus.ready
    → find_row Source.id k (settle_source jobs sync k sources) ≡ some s'
    → s'.status ≡ SourceStatus.ready
    → EndedIn sync.id jobs
unfolding settle_source
settle_source_ready jobs sync k sources {s} {s'} e h e' h' = ground (
  arith,
  all_ended sync.id jobs,
  find_row-update_row Source.id k (settle (has_failed_jobs sync.id jobs)) sources {r = s},
  find_row-key Source.id k sources {r = s},
)

after_attempt_ready :
    (outcome : IndexOutcome) (n : ℕ) (job : IndexJob) (db : Database) {sync : SourceSync}
    {s s' : Source}
    → job.sync_id ≡ some n
    → find_row SourceSync.id n db.syncs ≡ some sync
    → find_row Source.id job.source_id db.sources ≡ some s
    → s.status ≢ SourceStatus.ready
    → find_row Source.id job.source_id (after_attempt outcome job db).sources ≡ some s'
    → s'.status ≡ SourceStatus.ready
    → EndedIn n db.index_jobs
unfolding after_attempt
after_attempt_ready (indexed chunks []) n job db {sync} {s} {s'} es ey e h e' h' =
    subst (λ k. EndedIn k db.index_jobs) (find_row-key SourceSync.id n db.syncs ey)
      (settle_source_ready db.index_jobs sync job.source_id db.sources e h
        (rw (es, update_sync, ey) at e') h')
after_attempt_ready (indexed chunks (x ∷ xs)) n job db {sync} {s} {s'} es ey e h e' h' =
    subst (λ k. EndedIn k db.index_jobs) (find_row-key SourceSync.id n db.syncs ey)
      (settle_source_ready db.index_jobs sync job.source_id db.sources e h
        (rw (es, update_sync, ey) at e') h')
after_attempt_ready (threw x) n job db es ey e h e' h' = ground arith
after_attempt_ready cut_off n job db es ey e h e' h' = ground arith

-- No delivery moves a job to another sync or source.
pub run_index_job_home :
    (settings : Settings) (now : ℕ) (outcome : IndexOutcome) (job : IndexJob)
    → ((run_index_job settings now outcome job).0.sync_id ≡ job.sync_id)
      × ((run_index_job settings now outcome job).0.source_id ≡ job.source_id)
unfolding run_index_job
run_index_job_home settings now (indexed chunks []) job = ground arith
run_index_job_home settings now (indexed chunks (e ∷ es)) job = ground arith
run_index_job_home settings now (threw e) job = ground arith
run_index_job_home settings now cut_off job = ground arith

execute_row_ready :
    (settings : Settings) (now : ℕ) (outcome : IndexOutcome) (n : ℕ) (job : IndexJob)
    (db : Database) {sync : SourceSync} {s s' : Source}
    → job.sync_id ≡ some n
    → find_row SourceSync.id n db.syncs ≡ some sync
    → find_row Source.id job.source_id db.sources ≡ some s
    → s.status ≢ SourceStatus.ready
    → find_row Source.id job.source_id (execute_row settings now outcome job db).0.sources ≡ some s'
    → s'.status ≡ SourceStatus.ready
    → EndedIn n (execute_row settings now outcome job db).0.index_jobs
unfolding execute_row
execute_row_ready settings now outcome n job db {sync} {s} {s'} es ey e h e' h' =
    let job' = (run_index_job settings now outcome job).0 in
    let db' = record db { index_jobs = update_row IndexJob.id job.id (λ _. job') db.index_jobs } in
    let home = run_index_job_home settings now outcome job in
    rw execute_row-index_jobs (elim (Bool-cases (is_attempted settings job)) [
      | inl t ↦
          after_attempt_ready outcome n job' db' {sync = sync} {s = s} {s' = s'} (home.0 ∙ es) ey
            (rw (home.1) e) h (rw home.1 (rw (t, execute_row) at e')) h'
      | inr f ↦ absurd (ground arith)
    ])

-- A delivery that turns a source ready does so when every job of its sync has completed or has
-- become stale.
pub execute_index_document_job_ready :
    (settings : Settings) (now : ℕ) (outcome : IndexOutcome) (k n : ℕ) (db : Database)
    {job : IndexJob} {sync : SourceSync} {s s' : Source}
    → find_row IndexJob.id k db.index_jobs ≡ some job
    → job.sync_id ≡ some n
    → find_row SourceSync.id n db.syncs ≡ some sync
    → find_row Source.id job.source_id db.sources ≡ some s
    → s.status ≢ SourceStatus.ready
    → let db' = (execute_index_document_job settings now false outcome k db).0 in
      find_row Source.id job.source_id db'.sources ≡ some s'
      → s'.status ≡ SourceStatus.ready
      → EndedIn n db'.index_jobs
execute_index_document_job_ready settings now outcome k n db {job} {sync} {s} {s'} ej es ey e h e'
      h' =
    let same = execute_found settings now outcome k db ej in
    rw same (
      execute_row_ready settings now outcome n job db {sync = sync} {s = s} {s' = s'} es ey e h
        (rw same at e') h')
