-- ===== src/Sync/Endings.antt =====
-- How `finish_sync` ends a sync: what it reports, and what a repeated request gets.
use ops_incident_core.Prelude.{
  ℕ, ◌≡◌, ◌⊎◌, ◌↔◌, refl, true, false, some, List, [], ◌∷◌, arith, or_default,
}
use ops_incident_core.Settings.{Settings}
use ops_incident_core.Db.{
  Database, Diagnostics, Source, SourceStatus, SourceSync, SyncStatus, find_row,
  find_row-update_row,
}
use ops_incident_core.Worker.IndexJob.Handler.{has_open_jobs}
use ops_incident_core.Sync.Requests.{SyncFinishRequest, record_audit_event}
use ops_incident_core.Sync.Diagnostics.{update_diagnostics}
use ops_incident_core.Sync.Finish.{
  succeeded, parser_errors_of, effective_status, count_open_jobs, pending_index_jobs, close_sync,
  close_source, finish_open,
}

-- The count of open jobs is above zero exactly when the worker's query finds one.
count_open_jobs_lem :
    (k : ℕ) (jobs : List _) → (count_open_jobs k jobs ≡ 0) ↔ (has_open_jobs k jobs ≡ false)
unfolding count_open_jobs has_open_jobs
count_open_jobs_lem k [] = ground arith
count_open_jobs_lem k (j ∷ jobs) = ground (arith, count_open_jobs_lem k jobs)

effective_status_lem :
    (requested : SyncStatus) (sync : SourceSync) (diagnostics : Diagnostics)
    → let status = effective_status requested sync diagnostics in
      ((status ≡ SyncStatus.success) ↔ (
        (requested ≡ SyncStatus.success)
        × (parser_errors_of sync diagnostics ≡ 0)
        × (diagnostics.error_count ≡ 0)))
      × ((status ≡ requested)
          ⊎ ((requested ≡ SyncStatus.success) × (status ≡ SyncStatus.partial_success)))
unfolding effective_status parser_errors_of
effective_status_lem SyncStatus.success sync diagnostics = ground arith
effective_status_lem SyncStatus.running sync diagnostics = ground arith
effective_status_lem SyncStatus.partial_success sync diagnostics = ground arith
effective_status_lem SyncStatus.failed sync diagnostics = ground arith
effective_status_lem SyncStatus.cancelled sync diagnostics = ground arith

-- The source once a sync is closed.
close_source_lem :
    (pending : ℕ) (sync : SourceSync) (source : Source)
    → let s = close_source pending sync source in
      ((s.status ≡ SourceStatus.ready) ↔ ((succeeded sync.status ≡ true) × (pending ≡ 0)))
      × ((s.status ≡ SourceStatus.error) ↔ (succeeded sync.status ≡ false))
unfolding close_source
close_source_lem pending sync source = ground arith

close_source-home :
    (pending : ℕ) (sync : SourceSync) (source : Source)
    → ((close_source pending sync source).id ≡ source.id)
      × ((close_source pending sync source).project_id ≡ source.project_id)
unfolding close_source
close_source-home pending sync source = (refl, refl)

pending_index_jobs_lem :
    (settings : Settings) (k : ℕ) (db : Database)
    → (or_default (pending_index_jobs settings k db.index_jobs) 0 ≡ 0)
      ↔ (settings.rag_async_indexing ≡ true → has_open_jobs k db.index_jobs ≡ false)
unfolding count_open_jobs
pending_index_jobs_lem settings k db = ground (arith, count_open_jobs_lem k db.index_jobs)

-- Closing an open sync writes its row and its source's row. The sync is closed with the status
-- that the response reports: success exactly when success is asked for and neither the sync nor
-- the diagnostics sent along have counted an error, otherwise a partial success or the status that
-- is asked for. The source is in error exactly when the sync has not succeeded, in full or in
-- part. It is ready exactly when the sync has succeeded and, where documents are indexed
-- asynchronously, no job of the sync is open; where they are not, open jobs are not looked at.
pub finish_open_lem :
    (settings : Settings) (now : ℕ) (requested : SyncStatus) (body : SyncFinishRequest)
    (source : Source) (sync : SourceSync) (db : Database)
    → find_row SourceSync.id sync.id db.syncs ≡ some sync
    → find_row Source.id source.id db.sources ≡ some source
    → let diagnostics = update_diagnostics sync.diagnostics body.diagnostics in
      let (db', response) = finish_open settings now requested body source sync db in
      (closed : SourceSync) × (source' : Source) × (find_row SourceSync.id sync.id db'.syncs
        ≡ some closed)
      × (find_row Source.id source.id db'.sources ≡ some source')
      × (closed.status ≡ response.status)
      × (closed.finished_at ≡ some now)
      × ((response.status ≡ SyncStatus.success) ↔ (
          (requested ≡ SyncStatus.success)
          × (parser_errors_of sync diagnostics ≡ 0)
          × (diagnostics.error_count ≡ 0)))
      × ((response.status ≡ requested)
          ⊎ ((requested ≡ SyncStatus.success) × (response.status ≡ SyncStatus.partial_success)))
      × ((source'.status ≡ SourceStatus.ready) ↔ (
          (succeeded response.status ≡ true)
          × (settings.rag_async_indexing ≡ true → has_open_jobs sync.id db.index_jobs ≡ false)))
      × ((source'.status ≡ SourceStatus.error) ↔ (succeeded response.status ≡ false))
unfolding finish_open close_sync record_audit_event count_open_jobs
finish_open_lem settings now requested body source sync db ey es =
    let diagnostics = update_diagnostics sync.diagnostics body.diagnostics in
    let pending = pending_index_jobs settings sync.id db.index_jobs in
    let closed = close_sync now requested diagnostics sync in
    let (honest, asked) = effective_status_lem requested sync diagnostics in
    let (ready, failing) = close_source_lem (or_default pending 0) closed source in
    let (none_open, none_pending) = pending_index_jobs_lem settings sync.id db in
    (
      closed,
      close_source (or_default pending 0) closed source,
      find_row-update_row SourceSync.id sync.id _ db.syncs {r = sync} refl ey,
      find_row-update_row Source.id source.id _ db.sources {r = source}
          (close_source-home (or_default pending 0) closed source).0 es,
      refl,
      refl,
      honest,
      asked,
      ((λ h. let (a, b) = ready.0 h in (a, none_open b)), (λ (a, b). ready.1 (a, none_pending b))),
      failing,
    )
