-- ===== src/Sync/Consistency.antt =====
-- The table of index jobs under every request and every delivery.
use ops_incident_core.Prelude.{
  ℕ, ◌+◌, ◌<◌, ◌≡◌, inl, inr, refl, List, [], ◌∷◌, ◌++◌, arith, All, All-append, by_cases,
}
use ops_incident_core.Settings.{Settings}
use ops_incident_core.Db.{Database, IndexJob, Source, SourceSync}
use ops_incident_core.Worker.IndexJob.Lifecycle.{IsConsistent}
use ops_incident_core.Worker.IndexJob.Sync.{execute_index_document_job-IsConsistent}
use ops_incident_core.Api.Response.{◌>>=◌, ok, chain_ok}
use ops_incident_core.Api.Store.{Store}
use ops_incident_core.Api.Access.{authorize}
use ops_incident_core.Ingestion.Documents.{NormalizedDocument}
use ops_incident_core.Sync.Requests.{
  SyncStartRequest, SyncFinishRequest, BatchIngestRequest, SyncStatusResponse, record_audit_event,
}
use ops_incident_core.Sync.Diagnostics.{BatchIngestResult}
use ops_incident_core.Sync.Start.{start_checked, start_sync}
use ops_incident_core.Sync.Batch.{
  log_batch, write_batch, new_jobs, ingest, ingest_checked, limit_batches, ingest_documents_batch,
}
use ops_incident_core.Sync.Finish.{finish_open, finish_checked, finish_sync}
use ops_incident_core.Sync.Lifecycle.Sessions.{
  authorize-database, limit_batches-database, session_lem,
}
use ops_incident_core.Sync.Lifecycle.Ingesting.{ingest_checked_ok}
use ops_incident_core.Sync.Lifecycle.Finishing.{finish_checked_ok, finish_found_ok}
use ops_incident_core.Sync.Lifecycle.Actions.{Action, start, batch, finish, deliver, act, run}

abbrev pub AllConsistent : Settings → Database → Type 0
AllConsistent settings db = All (IsConsistent settings) db.index_jobs

start_checked-index_jobs :
    (settings : Settings) (now fresh : ℕ) (body : SyncStartRequest) (source : Source)
    (store : Store) (p : Store × SyncStatusResponse)
    → start_checked settings now fresh body source store ≡ ok p
    → p.0.database.index_jobs ≡ store.database.index_jobs
unfolding start_checked record_audit_event
start_checked-index_jobs settings now fresh body source store p h = ground arith

finish_checked-index_jobs :
    (settings : Settings) (now k : ℕ) (body : SyncFinishRequest) (source : Source) (store : Store)
    (p : Store × SyncStatusResponse)
    → finish_checked settings now k body source store ≡ ok p
    → p.0.database.index_jobs ≡ store.database.index_jobs
unfolding finish_open record_audit_event
finish_checked-index_jobs settings now k body source store p h =
    let (sync, requested, _, _, hf) = finish_checked_ok settings now k body source store p h in
    elim (finish_found_ok settings now requested body source sync store p hf) [
      | inl same ↦ rw same refl
      | inr (_, e) ↦ rw e refl
    ]

write_batch-index_jobs :
    (body : BatchIngestRequest) (result : BatchIngestResult) (jobs : List IndexJob)
    (source : Source) (sync : SourceSync) (db : Database)
    → (write_batch body result jobs source sync db).index_jobs ≡ db.index_jobs ++ jobs
unfolding write_batch log_batch record_audit_event
write_batch-index_jobs body result jobs source sync db = ground arith

new_jobs-IsConsistent :
    (settings : Settings) (now fresh source_id sync_id : ℕ) (documents : List NormalizedDocument)
    → 0 < settings.rag_index_max_retries
    → All (IsConsistent settings) (new_jobs settings now fresh source_id sync_id documents)
unfolding new_jobs
new_jobs-IsConsistent settings now fresh source_id sync_id [] h = tt
new_jobs-IsConsistent settings now fresh source_id sync_id (d ∷ ds) h =
    (ground arith, new_jobs-IsConsistent settings now (fresh + 1) source_id sync_id ds h)

ingest-IsConsistent :
    (settings : Settings) (now fresh : ℕ) (indexer : List NormalizedDocument → BatchIngestResult)
    (source_id sync_id : ℕ) (documents : List NormalizedDocument)
    → 0 < settings.rag_index_max_retries
    → All (IsConsistent settings) (ingest settings now fresh indexer source_id sync_id documents).1
unfolding ingest
ingest-IsConsistent settings now fresh indexer source_id sync_id documents h =
    by_cases (λ (p : BatchIngestResult × List IndexJob). All (IsConsistent settings) p.1)
      settings.rag_async_indexing _ _
      (λ _. new_jobs-IsConsistent settings now fresh source_id sync_id _ h) (λ _. tt)

ingest_checked-IsConsistent :
    (settings : Settings) (now fresh : ℕ) (indexer : List NormalizedDocument → BatchIngestResult)
    (body : BatchIngestRequest) (source : Source) (store : Store) (p : Store × BatchIngestResult)
    → 0 < settings.rag_index_max_retries
    → AllConsistent settings store.database
    → ingest_checked settings now fresh indexer body source store ≡ ok p
    → AllConsistent settings p.0.database
ingest_checked-IsConsistent settings now fresh indexer body source store p r v h =
    let (sync, _, e) = ingest_checked_ok settings now fresh indexer body source store p h in
    rw (e, write_batch-index_jobs)
      (All-append (IsConsistent settings) _ _ v
        (ingest-IsConsistent settings now fresh indexer source.id sync.id body.documents r))

module _ (settings : Settings) (indexer : List NormalizedDocument → BatchIngestResult)
    (retries : 0 < settings.rag_index_max_retries) where
  act-AllConsistent :
      (action : Action) (store : Store)
      → AllConsistent settings store.database
      → AllConsistent settings (act settings indexer action store).database
  unfolding act start_sync ingest_documents_batch finish_sync
  act-AllConsistent (start now fresh user_id source_id body) store v =
      let (store', access) = authorize user_id source_id store in
      session_lem (AllConsistent settings) store' access
        (λ source. start_checked settings now fresh body source store') (rw authorize-database v)
        (λ source p h.
          rw
            (start_checked-index_jobs settings now fresh body source store' p h, authorize-database)
            v)
  act-AllConsistent (batch now fresh user_id source_id body) store v =
      let (store', access) = authorize user_id source_id store in
      let (store'', admitted) = limit_batches settings now user_id access store' in
      let v' : AllConsistent settings store''.database =
        rw (limit_batches-database, authorize-database) v in
      session_lem (AllConsistent settings) store'' access
        (λ source. admitted >>= λ _. ingest_checked settings now fresh indexer body source store'')
        v'
        (λ source p h.
          let (_, _, hi) =
            chain_ok admitted (λ _. ingest_checked settings now fresh indexer body source store'')
              h in
          ingest_checked-IsConsistent settings now fresh indexer body source store'' p retries v'
            hi)
  act-AllConsistent (finish now user_id source_id k body) store v =
      let (store', access) = authorize user_id source_id store in
      session_lem (AllConsistent settings) store' access
        (λ source. finish_checked settings now k body source store') (rw authorize-database v)
        (λ source p h.
          rw (finish_checked-index_jobs settings now k body source store' p h, authorize-database)
            v)
  act-AllConsistent (deliver now locked outcome k) store v =
      execute_index_document_job-IsConsistent settings now locked outcome k store.database v

  -- Whatever requests and deliveries follow one another, every row of the table of jobs stays
  -- consistent: also the jobs that batches add, where one attempt at least is allowed.
  pub run-AllConsistent :
      (actions : List Action) (store : Store)
      → AllConsistent settings store.database
      → AllConsistent settings (run settings indexer actions store).database
  unfolding run
  run-AllConsistent [] store v = v
  run-AllConsistent (action ∷ actions) store v =
      run-AllConsistent actions (act settings indexer action store)
        (act-AllConsistent action store v)
