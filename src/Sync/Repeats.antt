-- ===== src/Sync/Repeats.antt =====
-- A repeated `finish_sync`: the retry of a client that has missed the answer.
use ops_incident_core.Prelude.{
  ℕ, ◌≡◌, inl, inr, refl, true, some, arith, is_some, Bool-cases, sym, subst, ◌∙◌, or_default,
}
use ops_incident_core.Settings.{Settings}
use ops_incident_core.Db.{
  Diagnostics, Source, SourceSync, SyncStatus, find_row, find_row-key, find_row-update_row,
}
use ops_incident_core.Api.Response.{Response, ◌>>=◌, ok, err, chain_ok}
use ops_incident_core.Api.Store.{Store, get_db}
use ops_incident_core.Api.Access.{authorize, enforce_json_size, require_sync}
use ops_incident_core.Sync.Requests.{SyncFinishRequest, SyncStatusResponse, record_audit_event}
use ops_incident_core.Sync.Finish.{
  repeats, effective_status, count_open_jobs, pending_index_jobs, close_sync, close_source,
  finish_open, finish_again, final_status, finish_found, finish_checked, finish_sync,
}
use ops_incident_core.Sync.Diagnostics.{update_diagnostics}
use ops_incident_core.Api.Access.Granted.{authorize_ok, authorize_again, require_sync_again}
use ops_incident_core.Sync.Lifecycle.Sessions.{require_sync-found}

-- A closed sync has a status that the request which closed it repeats.
repeats-effective_status :
    (requested : SyncStatus) (sync : SourceSync) (diagnostics : Diagnostics)
    → repeats (effective_status requested sync diagnostics) requested ≡ true
unfolding effective_status
repeats-effective_status SyncStatus.success sync diagnostics = ground arith
repeats-effective_status SyncStatus.running sync diagnostics = ground arith
repeats-effective_status SyncStatus.partial_success sync diagnostics = ground arith
repeats-effective_status SyncStatus.failed sync diagnostics = ground arith
repeats-effective_status SyncStatus.cancelled sync diagnostics = ground arith

-- What the retry finds: the rows of the source and of the sync, and the same answer.
record Repeatable (settings : Settings) (requested : SyncStatus) (body : SyncFinishRequest)
    (source : Source) (sync : SourceSync) (store store' : Store) (response : SyncStatusResponse)
    : Type 0 where
  source' : Source
  sync' : SourceSync
  source_found : find_row Source.id source.id store'.database.sources ≡ some source'
  same_project : source'.project_id ≡ source.project_id
  same_source : source'.id ≡ source.id
  sync_found : find_row SourceSync.id sync.id store'.database.syncs ≡ some sync'
  same_home : sync'.source_id ≡ sync.source_id
  same_members : store'.members ≡ store.members
  same_denials : store'.denials ≡ store.denials
  answer :
      (later : ℕ) (s : Source)
      → finish_found settings later requested body s sync' store' ≡ ok (store', response)

repeat_finished :
    (settings : Settings) (requested : SyncStatus) (body : SyncFinishRequest) (source : Source)
    (sync : SourceSync) (store store' : Store) (response : SyncStatusResponse)
    → is_some sync.finished_at ≡ true
    → ◌>>=◌ {Y = Store × SyncStatusResponse} (finish_again requested sync) (λ r. ok (store, r))
      ≡ ok (store', response)
    → find_row SourceSync.id sync.id store.database.syncs ≡ some sync
    → find_row Source.id source.id store.database.sources ≡ some source
    → Repeatable settings requested body source sync store store' response
unfolding finish_found
repeat_finished settings requested body source sync store store' response t h ey es =
    let (r, ha, hb) =
      chain_ok {Y = Store × SyncStatusResponse} (finish_again requested sync) (λ r. ok (store, r))
        h in
    let same : store ≡ store' = cc hb in
    let answered : r ≡ response = cc hb in
    subst (λ z. Repeatable settings requested body source sync store z response) same
      (record {
        source' = source;
        sync' = sync;
        source_found = es;
        same_project = refl;
        same_source = refl;
        sync_found = ey;
        same_home = refl;
        same_members = refl;
        same_denials = refl;
        answer = λ later s. rw (t, finish_found, ha, answered) refl;
      })

repeat_open :
    (settings : Settings) (now : ℕ) (requested : SyncStatus) (body : SyncFinishRequest)
    (source : Source) (sync : SourceSync) (store : Store)
    → find_row SourceSync.id sync.id store.database.syncs ≡ some sync
    → find_row Source.id source.id store.database.sources ≡ some source
    → let (db, response) = finish_open settings now requested body source sync store.database in
      Repeatable settings requested body source sync store (record store { database = db }) response
unfolding finish_found finish_open close_sync close_source record_audit_event count_open_jobs
    finish_again
repeat_open settings now requested body source sync store ey es =
    let diagnostics = update_diagnostics sync.diagnostics body.diagnostics in
    let pending = pending_index_jobs settings sync.id store.database.index_jobs in
    let closed = close_sync now requested diagnostics sync in
    record {
      source' = close_source (or_default pending 0) closed source;
      sync' = closed;
      source_found =
          find_row-update_row Source.id source.id _ store.database.sources {r = source} refl es;
      same_project = refl;
      same_source = refl;
      sync_found =
          find_row-update_row SourceSync.id sync.id _ store.database.syncs {r = sync} refl ey;
      same_home = refl;
      same_members = refl;
      same_denials = refl;
      answer = λ later s. rw (repeats-effective_status requested sync diagnostics) refl;
    }

finish_found_again :
    (settings : Settings) (now : ℕ) (requested : SyncStatus) (body : SyncFinishRequest)
    (source : Source) (sync : SourceSync) (store store' : Store) (response : SyncStatusResponse)
    → finish_found settings now requested body source sync store ≡ ok (store', response)
    → find_row SourceSync.id sync.id store.database.syncs ≡ some sync
    → find_row Source.id source.id store.database.sources ≡ some source
    → Repeatable settings requested body source sync store store' response
unfolding finish_found
finish_found_again settings now requested body source sync store store' response h ey es =
    elim (Bool-cases (is_some sync.finished_at)) [
      | inl t ↦
          repeat_finished settings requested body source sync store store' response t
            (rw (t, finish_found) at h) ey es
      | inr f ↦
          let (db, r) = finish_open settings now requested body source sync store.database in
          let e : Path (Response (Store × SyncStatusResponse))
              (ok (record store { database = db }, r)) (ok (store', response)) =
            rw (f, finish_found) at h in
          let same : record store { database = db } ≡ store' = cc e in
          let answered : r ≡ response = cc e in
          subst (λ z. Repeatable settings requested body source sync store z response) same
            (subst
              (λ x.
                Repeatable settings requested body source sync store
                  (record store { database = db }) x)
              answered (repeat_open settings now requested body source sync store ey es))
    ]

finish_checked_run :
    (settings : Settings) (now k : ℕ) (body : SyncFinishRequest) (source : Source) (store : Store)
    {u v : Unit {0}} {sync : SourceSync} {requested : SyncStatus}
    {r : Response (Store × SyncStatusResponse)}
    → enforce_json_size body.diagnostics.size settings.max_sync_diagnostics_bytes ≡ ok u
    → enforce_json_size body.coverage_size settings.max_sync_diagnostics_bytes ≡ ok v
    → require_sync k source.id store.database.syncs ≡ ok sync
    → final_status body.status ≡ ok requested
    → finish_found settings now requested body source sync store ≡ r
    → finish_checked settings now k body source store ≡ r
unfolding finish_checked
finish_checked_run settings now k body source store e1 e2 e3 e4 h =
    rw (e1, finish_checked, e2, e3, e4) h

finish_sync_run :
    (settings : Settings) (now user_id source_id k : ℕ) (body : SyncFinishRequest) (store : Store)
    {source : Source} {response : SyncStatusResponse}
    → authorize user_id source_id store ≡ (store, ok source)
    → finish_checked settings now k body source store ≡ ok (store, response)
    → finish_sync settings now user_id source_id k body store ≡ (store, ok response)
unfolding finish_sync get_db
finish_sync_run settings now user_id source_id k body store a h =
    rw (a, finish_sync) (rw (h, get_db) refl)

-- After the checks of the first request.
finish_checked_again :
    (settings : Settings) (now k : ℕ) (body : SyncFinishRequest) (source : Source)
    (store store' : Store) (response : SyncStatusResponse)
    → finish_checked settings now k body source store ≡ ok (store', response)
    → find_row Source.id source.id store.database.sources ≡ some source
    → (source' : Source) × (find_row Source.id source.id store'.database.sources ≡ some source')
      × (source'.project_id ≡ source.project_id)
      × (store'.members ≡ store.members)
      × (store'.denials ≡ store.denials)
      × ((later : ℕ) → finish_checked settings later k body source' store' ≡ ok (store', response))
unfolding finish_checked
finish_checked_again settings now k body source store store' response h es =
    let (_, e1, h1) =
      chain_ok (enforce_json_size body.diagnostics.size settings.max_sync_diagnostics_bytes) _ h in
    let (_, e2, h2) =
      chain_ok (enforce_json_size body.coverage_size settings.max_sync_diagnostics_bytes) _ h1 in
    let (sync, hs, h3) = chain_ok (require_sync k source.id store.database.syncs) _ h2 in
    let (requested, hr, h4) = chain_ok (final_status body.status) _ h3 in
    let (found, home) = require_sync-found k source.id store.database.syncs hs in
    let key = find_row-key SourceSync.id k store.database.syncs found in
    let again =
      finish_found_again settings now requested body source sync store store' response h4
        (rw key found) es in
    let e3 : require_sync k again.source'.id store'.database.syncs ≡ ok again.sync' =
      require_sync_again k again.source'.id store'.database.syncs
        (subst (λ j. find_row SourceSync.id j store'.database.syncs ≡ some again.sync') key
          again.sync_found)
        (again.same_home ∙ home ∙ sym again.same_source) in
    (
      again.source',
      again.source_found,
      again.same_project,
      again.same_members,
      again.same_denials,
      λ later.
          finish_checked_run settings later k body again.source' store' e1 e2 e3 hr
            (again.answer later again.source'),
    )

get_db_ok {ℓ} :
    {A : Type ℓ} (store store' : Store) (r : Response (Store × A)) (a : A)
    → get_db store r ≡ (store', ok a)
    → r ≡ ok (store', a)
unfolding get_db
get_db_ok store store' (ok p) a h = ground arith
get_db_ok store store' (err e) a h = cc

-- A request to finish a sync that was answered with a status is answered with the same one when
-- it is sent again at any time before another request, and then writes nothing.
pub finish_sync_again :
    (settings : Settings) (now later user_id source_id sync_id : ℕ) (body : SyncFinishRequest)
    (store store' : Store) (response : SyncStatusResponse)
    → finish_sync settings now user_id source_id sync_id body store ≡ (store', ok response)
    → finish_sync settings later user_id source_id sync_id body store' ≡ (store', ok response)
unfolding finish_sync
finish_sync_again settings now later user_id source_id k body store store' response h =
    let (store1, access) = authorize user_id source_id store in
    let h1 =
      get_db_ok store1 store'
        (access >>= λ source. finish_checked settings now k body source store1) response h in
    let (source, ha, hf) =
      chain_ok access (λ source. finish_checked settings now k body source store1) h1 in
    let (same, found, admin) = authorize_ok user_id source_id store {source = source} ha in
    let key = find_row-key Source.id source_id store.database.sources found in
    let (source', found', project, members, denials, answer) =
      finish_checked_again settings now k body source store store' response
        (subst (λ z. finish_checked settings now k body source z ≡ ok (store', response)) same hf)
        (rw key found) in
    let again =
      authorize_again user_id source_id store store' {source = source} {source' = source'} ha
        members denials
        (subst (λ j. find_row Source.id j store'.database.sources ≡ some source') key found')
        project in
    finish_sync_run settings later user_id source_id k body store' again (answer later)
