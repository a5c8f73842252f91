-- ===== src/Sync/Lifecycle/Actions.antt =====
-- Requests and deliveries in any order.
use ops_incident_core.Prelude.{ℕ, Bool, List, [], ◌∷◌}
use ops_incident_core.Settings.{Settings}
use ops_incident_core.Api.Store.{Store}
use ops_incident_core.Worker.IndexJob.Row.{IndexOutcome}
use ops_incident_core.Worker.IndexJob.Handler.{execute_index_document_job}
use ops_incident_core.Ingestion.Documents.{NormalizedDocument}
use ops_incident_core.Sync.Requests.{SyncStartRequest, SyncFinishRequest, BatchIngestRequest}
use ops_incident_core.Sync.Diagnostics.{BatchIngestResult}
use ops_incident_core.Sync.Start.{start_sync}
use ops_incident_core.Sync.Batch.{ingest_documents_batch}
use ops_incident_core.Sync.Finish.{finish_sync}
use ops_incident_core.Sync.Lifecycle.Rows.{Carries, Carries-refl, Carries-trans}
use ops_incident_core.Sync.Lifecycle.Starting.{start_sync-Carries}
use ops_incident_core.Sync.Lifecycle.Ingesting.{ingest_documents_batch-Carries}
use ops_incident_core.Sync.Lifecycle.Finishing.{finish_sync-Carries}
use ops_incident_core.Sync.Lifecycle.Delivering.{execute_index_document_job-Carries}

-- A request with its time and its user, or the delivery of a job to a worker.
pub data Action : Type 0 where
  start : (now fresh user_id source_id : ℕ) → SyncStartRequest → Action
  batch : (now fresh user_id source_id : ℕ) → BatchIngestRequest → Action
  finish : (now user_id source_id sync_id : ℕ) → SyncFinishRequest → Action
  deliver : (now : ℕ) → (locked : Bool) → IndexOutcome → (index_job_id : ℕ) → Action

module _ (settings : Settings) (indexer : List NormalizedDocument → BatchIngestResult) where
  unfoldable pub act : Action → Store → Store
  unfolding start_sync ingest_documents_batch finish_sync execute_index_document_job
  act (start now fresh user_id source_id body) store =
      (start_sync settings now fresh user_id source_id body store).0
  act (batch now fresh user_id source_id body) store =
      (ingest_documents_batch settings now fresh indexer user_id source_id body store).0
  act (finish now user_id source_id sync_id body) store =
      (finish_sync settings now user_id source_id sync_id body store).0
  act (deliver now locked outcome k) store = record store {
    database = (execute_index_document_job settings now locked outcome k store.database).0;
  }

  unfoldable pub run : List Action → Store → Store
  unfolding act
  run [] store = store
  run (action ∷ actions) store = run actions (act action store)

  pub act-Carries :
      (action : Action) (store : Store)
      → Carries store.database.syncs (act action store).database.syncs
  unfolding act
  act-Carries (start now fresh user_id source_id body) store =
      start_sync-Carries settings now fresh user_id source_id body store
  act-Carries (batch now fresh user_id source_id body) store =
      ingest_documents_batch-Carries settings now fresh indexer user_id source_id body store
  act-Carries (finish now user_id source_id sync_id body) store =
      finish_sync-Carries settings now user_id source_id sync_id body store
  act-Carries (deliver now locked outcome k) store =
      execute_index_document_job-Carries settings now locked outcome k store.database

  -- Whatever requests and deliveries follow one another, a sync that is in the table stays in it;
  -- a finished one keeps its status and time of finish, an open one stays as it is or is closed
  -- with another status than `running`, and its counters of documents, chunks and errors never
  -- fall.
  pub run-Carries :
      (actions : List Action) (store : Store)
      → Carries store.database.syncs (run actions store).database.syncs
  unfolding run
  run-Carries [] store = Carries-refl store.database.syncs
  run-Carries (action ∷ actions) store =
      Carries-trans store.database.syncs (act action store).database.syncs
        (run actions (act action store)).database.syncs (act-Carries action store)
        (run-Carries actions (act action store))
