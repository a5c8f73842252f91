-- ===== src/Sync/Lifecycle/Finishing.antt =====
-- `finish_sync` carries every row of `source_syncs` on.
use ops_incident_core.Prelude.{ℕ, ◌≡◌, ◌≢◌, ◌⊎◌, inl, inr, false, Option, some, arith, is_some}
use ops_incident_core.Settings.{Settings}
use ops_incident_core.Db.{
  Database, Diagnostics, Source, SourceSync, SyncStatus, find_row, find_row-key,
}
use ops_incident_core.Api.Response.{ok, chain_ok}
use ops_incident_core.Api.Store.{Store}
use ops_incident_core.Api.Access.{authorize, enforce_json_size, require_sync}
use ops_incident_core.Sync.Requests.{SyncFinishRequest, SyncStatusResponse, record_audit_event}
use ops_incident_core.Sync.Diagnostics.{update_diagnostics}
use ops_incident_core.Sync.Finish.{
  effective_status, parser_errors_of, close_sync, count_open_jobs, finish_open, final_status,
  finish_found, finish_checked, finish_sync,
}
use ops_incident_core.Sync.Lifecycle.Rows.{Evolves, Carries, Carries-refl, Carries-update_row}
use ops_incident_core.Sync.Lifecycle.Sessions.{session-Carries, authorize-syncs, require_sync-found}

pub finish_found_ok :
    (settings : Settings) (now : ℕ) (requested : SyncStatus) (body : SyncFinishRequest)
    (source : Source) (sync : SourceSync) (store : Store) (p : Store × SyncStatusResponse)
    → finish_found settings now requested body source sync store ≡ ok p
    → (p.0.database ≡ store.database)
      ⊎ ((is_some sync.finished_at ≡ false)
          × (p.0.database ≡ (finish_open settings now requested body source sync store.database).0))
unfolding finish_found
finish_found_ok settings now requested body source sync store p h = ground arith

final_status_ok :
    (status : Option SyncStatus) {requested : SyncStatus}
    → final_status status ≡ ok requested
    → requested ≢ SyncStatus.running
unfolding final_status
final_status_ok status h = ground arith

pub finish_checked_ok :
    (settings : Settings) (now sync_id : ℕ) (body : SyncFinishRequest) (source : Source)
    (store : Store) (p : Store × SyncStatusResponse)
    → finish_checked settings now sync_id body source store ≡ ok p
    → (sync : SourceSync) × (requested : SyncStatus) × (require_sync sync_id source.id
          store.database.syncs
        ≡ ok sync)
      × (requested ≢ SyncStatus.running)
      × (finish_found settings now requested body source sync store ≡ ok p)
unfolding finish_checked
finish_checked_ok settings now sync_id body source store p h =
    let (_, _, h1) =
      chain_ok (enforce_json_size body.diagnostics.size settings.max_sync_diagnostics_bytes) _ h in
    let (_, _, h2) =
      chain_ok (enforce_json_size body.coverage_size settings.max_sync_diagnostics_bytes) _ h1 in
    let (sync, hs, h3) = chain_ok (require_sync sync_id source.id store.database.syncs) _ h2 in
    let (requested, hr, h4) = chain_ok (final_status body.status) _ h3 in
    (sync, requested, hs, final_status_ok body.status hr, h4)

close_sync-Evolves :
    (now : ℕ) (requested : SyncStatus) (diagnostics : Diagnostics) (sync : SourceSync)
    → requested ≢ SyncStatus.running
    → is_some sync.finished_at ≡ false
    → Evolves sync (close_sync now requested diagnostics sync)
unfolding close_sync parser_errors_of effective_status
close_sync-Evolves now requested diagnostics sync h f = ground arith

finish_open-Carries :
    (settings : Settings) (now : ℕ) (requested : SyncStatus) (body : SyncFinishRequest)
    (source : Source) (sync : SourceSync) (db : Database)
    → find_row SourceSync.id sync.id db.syncs ≡ some sync
    → requested ≢ SyncStatus.running
    → is_some sync.finished_at ≡ false
    → Carries db.syncs (finish_open settings now requested body source sync db).0.syncs
unfolding finish_open record_audit_event count_open_jobs
finish_open-Carries settings now requested body source sync db e h f =
    Carries-update_row sync.id _ db.syncs {r = sync} e (
      close_sync-Evolves now requested (update_diagnostics sync.diagnostics body.diagnostics) sync h
        f)

finish_checked-Carries :
    (settings : Settings) (now sync_id : ℕ) (body : SyncFinishRequest) (source : Source)
    (store : Store) (p : Store × SyncStatusResponse)
    → finish_checked settings now sync_id body source store ≡ ok p
    → Carries store.database.syncs p.0.database.syncs
finish_checked-Carries settings now sync_id body source store p h =
    let (sync, requested, hs, hr, hf) =
      finish_checked_ok settings now sync_id body source store p h in
    let (found, _) = require_sync-found sync_id source.id store.database.syncs hs in
    let key = find_row-key SourceSync.id sync_id store.database.syncs found in
    elim (finish_found_ok settings now requested body source sync store p hf) [
      | inl same ↦ rw same (Carries-refl store.database.syncs)
      | inr (unfinished, e) ↦ rw e (
          finish_open-Carries settings now requested body source sync store.database (rw key found)
            hr unfinished)
    ]

pub finish_sync-Carries :
    (settings : Settings) (now user_id source_id sync_id : ℕ) (body : SyncFinishRequest)
    (store : Store)
    → Carries store.database.syncs
        (finish_sync settings now user_id source_id sync_id body store).0.database.syncs
unfolding finish_sync
finish_sync-Carries settings now user_id source_id sync_id body store =
    let (store', access) = authorize user_id source_id store in
    session-Carries store.database.syncs store' access
      (λ source. finish_checked settings now sync_id body source store')
      (authorize-syncs user_id source_id store)
      (λ source p h. finish_checked-Carries settings now sync_id body source store' p h)
