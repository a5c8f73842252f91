-- ===== src/Examples/Jobs.antt =====
-- Deliveries of an index job, and rounds of the dispatcher.
use ops_incident_core.Prelude.{◌≤◌, ℕ, ◌≡◌, ◌≢◌, refl, true, false, some, List, [], ◌∷◌, arith}
use ops_incident_core.Db.{IndexStatus, Source, SourceStatus, find_row}
use ops_incident_core.Worker.IndexJob.Row.{
  IndexOutcome, indexed, threw, cut_off, run_index_job, is_skipped, attempt, start_attempt,
  finish_attempt, fail_attempt,
}
use ops_incident_core.Worker.IndexJob.Lifecycle.{
  IsConsistent, is_terminal, deliver, deliver_terminates,
}
use ops_incident_core.Worker.IndexJob.Handler.{
  execute_index_document_job, execute_row, is_attempted, after_attempt, update_sync, log, count_job,
  settle_source, settle, has_open_jobs, has_failed_jobs,
}
use ops_incident_core.Worker.IndexJob.Sync.{
  execute_index_document_job_threw, execute_index_document_job_ready, EndedIn,
}
use ops_incident_core.Examples.Rows.{settings, waiting_job, finished_sync, source_with, database}

abbrev attempts : List (ℕ × IndexOutcome)
attempts = (30, threw 4) ∷ (35, cut_off) ∷ (40, threw 4) ∷ (50, threw 4) ∷ []

waiting_job-IsConsistent : IsConsistent settings waiting_job
waiting_job-IsConsistent = ground arith

deliver_terminates_example :
    (is_terminal (deliver settings attempts waiting_job).status ≡ true)
    × ((deliver settings attempts waiting_job).attempts ≤ settings.rag_index_max_retries)
deliver_terminates_example =
    deliver_terminates settings attempts waiting_job waiting_job-IsConsistent (omega arith)

execute_index_document_job_threw_example :
    let db' = (execute_index_document_job settings 30 false (threw 4) 1 database).0 in
    (db'.syncs ≡ database.syncs) × (db'.sources ≡ database.sources)
execute_index_document_job_threw_example =
    execute_index_document_job_threw settings 30 false 4 1 database

-- The one job of the finished sync completes, and its source becomes ready.
becomes_ready :
    find_row Source.id 7
      (execute_index_document_job settings 30 false (indexed 4 []) 1 database).0.sources
    ≡ some (settle false (source_with SourceStatus.indexing))
unfolding execute_index_document_job execute_row is_attempted run_index_job is_skipped attempt
    start_attempt finish_attempt after_attempt update_sync log count_job settle_source settle
    has_open_jobs has_failed_jobs
becomes_ready = refl

settled_status : (settle false (source_with SourceStatus.indexing)).status ≡ SourceStatus.ready
unfolding settle
settled_status = refl

indexing_not_ready : (source_with SourceStatus.indexing).status ≢ SourceStatus.ready
indexing_not_ready h = ground arith

execute_index_document_job_ready_example :
    EndedIn 5 (execute_index_document_job settings 30 false (indexed 4 []) 1 database).0.index_jobs
execute_index_document_job_ready_example =
    execute_index_document_job_ready settings 30 (indexed 4 []) 1 5 database {job = waiting_job}
      {sync = finished_sync} {s = source_with SourceStatus.indexing}
      {s' = settle false (source_with SourceStatus.indexing)} refl refl refl refl indexing_not_ready
      becomes_ready settled_status

-- The third exception is the last: the job has failed.
third_failure : (deliver settings attempts waiting_job).status ≡ IndexStatus.failed
unfolding deliver run_index_job is_skipped attempt start_attempt fail_attempt
third_failure = refl
