-- ===== src/Sync/Lifecycle/Starting.antt =====
-- `start_sync` carries every row of `source_syncs` on.
use ops_incident_core.Prelude.{ℕ, ◌≡◌, [], ◌∷◌, ◌++◌, arith}
use ops_incident_core.Settings.{Settings}
use ops_incident_core.Db.{Source}
use ops_incident_core.Api.Response.{ok}
use ops_incident_core.Api.Store.{Store}
use ops_incident_core.Api.Access.{authorize}
use ops_incident_core.Sync.Requests.{SyncStartRequest, SyncStatusResponse, record_audit_event}
use ops_incident_core.Sync.Start.{new_sync, start_checked, start_sync}
use ops_incident_core.Sync.Lifecycle.Rows.{Carries, Carries-append}
use ops_incident_core.Sync.Lifecycle.Sessions.{session-Carries, authorize-syncs}

start_checked_ok :
    (settings : Settings) (now fresh : ℕ) (body : SyncStartRequest) (source : Source)
    (store : Store) (p : Store × SyncStatusResponse)
    → start_checked settings now fresh body source store ≡ ok p
    → p.0.database.syncs ≡ store.database.syncs ++ new_sync now fresh source.id body ∷ []
unfolding start_checked record_audit_event
start_checked_ok settings now fresh body source store p h = ground arith

pub start_sync-Carries :
    (settings : Settings) (now fresh user_id source_id : ℕ) (body : SyncStartRequest)
    (store : Store)
    → Carries store.database.syncs
        (start_sync settings now fresh user_id source_id body store).0.database.syncs
unfolding start_sync
start_sync-Carries settings now fresh user_id source_id body store =
    let (store', access) = authorize user_id source_id store in
    session-Carries store.database.syncs store' access
      (λ source. start_checked settings now fresh body source store')
      (authorize-syncs user_id source_id store)
      (λ source p h.
        rw (start_checked_ok settings now fresh body source store' p h)
          (Carries-append store'.database.syncs (new_sync now fresh source.id body ∷ [])))
