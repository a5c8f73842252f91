-- ===== src/Worker/IndexJob/Handler.antt =====
-- The handler around the row: counters of the sync, the source's status, audit and events.
use ops_incident_core.Prelude.{
  ℕ, ◌+◌, ◌&&◌, Bool, true, false, not, Option, none, some, String, List, [], ◌∷◌, ◌++◌,
  if◌then◌else◌, any, is_some, ◌==◌, leb, length, to_int, non_empty,
}
use ops_incident_core.Settings.{Settings}
use ops_incident_core.Db.{
  Database, IndexJob, IndexStatus, Source, SourceStatus, SourceSync, SyncStatus, LastSync, find_row,
  update_row,
}
use ops_incident_core.Worker.IndexJob.Row.{
  IndexOutcome, indexed, threw, cut_off, JobResult, returned, run_index_job, is_skipped,
}

abbrev pub in_sync : ℕ → Option ℕ → Bool
in_sync k none = false
in_sync k (some j) = j == k

-- `IndexJob.status.in_(("pending", "queued", "running"))`
abbrev pub is_open : IndexStatus → Bool
is_open IndexStatus.pending = true
is_open IndexStatus.queued = true
is_open IndexStatus.running = true
is_open _ = false

abbrev pub has_failed : IndexStatus → Bool
has_failed IndexStatus.failed = true
has_failed _ = false

-- The two queries over the jobs of a sync.
unfoldable pub has_open_jobs : ℕ → List IndexJob → Bool
has_open_jobs k = any (λ j. in_sync k j.sync_id && is_open j.status)

unfoldable pub has_failed_jobs : ℕ → List IndexJob → Bool
has_failed_jobs k = any (λ j. in_sync k j.sync_id && has_failed j.status)

-- `sync.chunks_created += ...` and the counters of its diagnostics.
unfoldable pub count_job : ℕ → List ℕ → SourceSync → SourceSync
count_job chunks errors sync = record sync {
  chunks_created = sync.chunks_created + chunks;
  parser_errors = sync.parser_errors + length errors;
  diagnostics = record (sync.diagnostics) {
    index_jobs_completed = sync.diagnostics.index_jobs_completed + 1;
    index_jobs_failed = sync.diagnostics.index_jobs_failed + to_int (non_empty errors);
  };
}

-- The source once no job of its finished sync is open.
unfoldable pub settle : Bool → Source → Source
settle failed source =
    if failed
    then record source {
      status = SourceStatus.error;
      last_sync_status = some (LastSync.sync_status SyncStatus.partial_success);
    }
    else record source {
      status = SourceStatus.ready;
      last_sync_status = some (LastSync.sync_status SyncStatus.success);
    }

unfoldable pub settle_source : List IndexJob → SourceSync → ℕ → List Source → List Source
unfolding has_open_jobs has_failed_jobs settle
settle_source jobs sync source_id sources =
    if is_some sync.finished_at && not (has_open_jobs sync.id jobs)
    then update_row Source.id source_id (settle (has_failed_jobs sync.id jobs)) sources
    else sources

-- `if index_job.sync_id: ... if sync: ...`
unfoldable pub update_sync : ℕ → List ℕ → IndexJob → Database → Database
unfolding count_job settle_source
update_sync chunks errors job db = elim job.sync_id [
  | none ↦ db
  | some k ↦ elim (find_row SourceSync.id k db.syncs) [
    | none ↦ db
    | some sync ↦ record db {
      syncs = update_row SourceSync.id k (count_job chunks errors) db.syncs;
      sources = settle_source db.index_jobs sync job.source_id db.sources;
    }
  ]
]

unfoldable pub log : String → String → String → String → IndexJob → Database → Database
log action status event_type severity job db = record db {
  audit_events =
      db.audit_events ++ record { action = action; status = status; resource_id = job.id } ∷ [];
  operational_events =
      db.operational_events ++ record { event_type = event_type; severity = severity } ∷ [];
}

-- What follows an attempt, by how the indexer ended; `job` is the row as the attempt left it.
unfoldable pub after_attempt : IndexOutcome → IndexJob → Database → Database
unfolding update_sync log
after_attempt (indexed chunks []) job db =
    log "index_job_completed" "completed" "index_document_completed" "info" job
      (update_sync chunks [] job db)
after_attempt (indexed chunks (e ∷ es)) job db =
    log "index_job_failed" "failed" "index_document_failed" "high" job
      (update_sync chunks (e ∷ es) job db)
after_attempt (threw x) job db =
    if is_open job.status
    then log "index_job_retry_scheduled" "pending" "index_document_retry" "medium" job db
    else log "index_job_failed" "failed" "index_document_failed" "high" job db
after_attempt cut_off job db = db

-- The guards let an attempt through.
unfoldable pub is_attempted : Settings → IndexJob → Bool
unfolding is_skipped
is_attempted settings job =
    not (is_skipped job.status)
    && not (leb settings.rag_index_max_retries job.attempts)
    && job.index_version == settings.vector_index_version

unfoldable pub execute_row :
    Settings → ℕ → IndexOutcome → IndexJob → Database → Database × JobResult
execute_row settings now outcome job db =
    let (job', result) = run_index_job settings now outcome job in
    let db' = record db { index_jobs = update_row IndexJob.id job.id (λ _. job') db.index_jobs } in
    (if is_attempted settings job then after_attempt outcome job' db' else db', result)

-- The whole handler. A row that is missing or locked is left to another delivery.
unfoldable pub execute_index_document_job :
    Settings → ℕ → Bool → IndexOutcome → ℕ → Database → Database × JobResult
unfolding execute_row
execute_index_document_job settings now locked outcome index_job_id db =
    elim (if locked then none else find_row IndexJob.id index_job_id db.index_jobs) [
      | none ↦ (db, returned)
      | some job ↦ execute_row settings now outcome job db
    ]
