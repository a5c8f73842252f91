-- ===== src/Sync/Lifecycle/Ingesting.antt =====
-- `ingest_documents_batch` carries every row of `source_syncs` on.
use ops_incident_core.Prelude.{ℕ, ◌≡◌, refl, Bool, some, List, arith, length}
use ops_incident_core.Settings.{Settings}
use ops_incident_core.Db.{Database, IndexJob, Source, SourceSync, find_row, find_row-key}
use ops_incident_core.Api.Response.{◌>>=◌, ok, chain_ok}
use ops_incident_core.Api.Store.{Store}
use ops_incident_core.Api.Access.{authorize, require_sync}
use ops_incident_core.Ingestion.Documents.{NormalizedDocument}
use ops_incident_core.Sync.Requests.{BatchIngestRequest, record_audit_event}
use ops_incident_core.Sync.Diagnostics.{BatchIngestResult}
use ops_incident_core.Sync.Batch.{
  count_batch, log_batch, write_batch, ingest, ingest_checked, limit_batches,
  ingest_documents_batch,
}
use ops_incident_core.Sync.Lifecycle.Rows.{Evolves, Carries, Carries-update_row}
use ops_incident_core.Sync.Lifecycle.Sessions.{
  authorize-database, limit_batches-database, session-Carries, require_sync-found,
}

count_batch-Evolves :
    (body : BatchIngestRequest) (result : BatchIngestResult) (queued : ℕ) (sync : SourceSync)
    → Evolves sync (count_batch body result queued sync)
unfolding count_batch
count_batch-Evolves body result queued sync = ground arith

log_batch-syncs :
    (failing : Bool) (source_id : ℕ) (db : Database)
    → (log_batch failing source_id db).syncs ≡ db.syncs
unfolding log_batch record_audit_event
log_batch-syncs failing source_id db = ground arith

write_batch-Carries :
    (body : BatchIngestRequest) (result : BatchIngestResult) (jobs : List IndexJob)
    (source : Source) (sync : SourceSync) (db : Database)
    → find_row SourceSync.id sync.id db.syncs ≡ some sync
    → Carries db.syncs (write_batch body result jobs source sync db).syncs
unfolding write_batch
write_batch-Carries body result jobs source sync db e = rw log_batch-syncs (
    Carries-update_row sync.id (count_batch body result (length jobs)) db.syncs {r = sync} e
      (count_batch-Evolves body result (length jobs) sync))

-- What a successful batch went through, and what it wrote.
pub ingest_checked_ok :
    (settings : Settings) (now fresh : ℕ) (indexer : List NormalizedDocument → BatchIngestResult)
    (body : BatchIngestRequest) (source : Source) (store : Store) (p : Store × BatchIngestResult)
    → ingest_checked settings now fresh indexer body source store ≡ ok p
    → (sync : SourceSync) × (require_sync body.sync_id source.id store.database.syncs ≡ ok sync)
      × (p.0.database ≡ (
          let (result, jobs) = ingest settings now fresh indexer source.id sync.id body.documents in
          write_batch body result jobs source sync store.database))
unfolding ingest_checked
ingest_checked_ok settings now fresh indexer body source store p h =
    let (sync, hs, h') = chain_ok (require_sync body.sync_id source.id store.database.syncs) _ h in
    (sync, hs, ground arith)

ingest_checked-Carries :
    (settings : Settings) (now fresh : ℕ) (indexer : List NormalizedDocument → BatchIngestResult)
    (body : BatchIngestRequest) (source : Source) (store : Store) (p : Store × BatchIngestResult)
    → ingest_checked settings now fresh indexer body source store ≡ ok p
    → Carries store.database.syncs p.0.database.syncs
ingest_checked-Carries settings now fresh indexer body source store p h =
    let (sync, hs, e) = ingest_checked_ok settings now fresh indexer body source store p h in
    let (found, _) = require_sync-found body.sync_id source.id store.database.syncs hs in
    let key = find_row-key SourceSync.id body.sync_id store.database.syncs found in
    let (result, jobs) = ingest settings now fresh indexer source.id sync.id body.documents in
    rw e (write_batch-Carries body result jobs source sync store.database (rw key found))

pub ingest_documents_batch-Carries :
    (settings : Settings) (now fresh : ℕ) (indexer : List NormalizedDocument → BatchIngestResult)
    (user_id source_id : ℕ) (body : BatchIngestRequest) (store : Store)
    → Carries store.database.syncs
        (ingest_documents_batch settings now fresh indexer user_id source_id body
          store).0.database.syncs
unfolding ingest_documents_batch
ingest_documents_batch-Carries settings now fresh indexer user_id source_id body store =
    let (store', access) = authorize user_id source_id store in
    let (store'', admitted) = limit_batches settings now user_id access store' in
    session-Carries store.database.syncs store'' access
      (λ source. admitted >>= λ _. ingest_checked settings now fresh indexer body source store'')
      (rw (limit_batches-database, authorize-database) refl)
      (λ source p h.
        let (_, _, hi) =
          chain_ok admitted (λ _. ingest_checked settings now fresh indexer body source store'')
            h in
        ingest_checked-Carries settings now fresh indexer body source store'' p hi)
