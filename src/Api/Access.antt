-- ===== src/Api/Access.antt =====
-- Who may do what: the dependencies of apps/api/deps.py, and `_require_source`, `_require_sync`,
-- `_validate_collector` and `_validate_sync_collector` of apps/api/routes/sources.py.
pub mod Granted
use ops_incident_core.Prelude.{
  ℕ, Bool, ◌&&◌, ◌||◌, not, Option, none, some, List, [], ◌∷◌, ◌++◌, if◌then◌else◌, ◌==◌, leb,
}
use ops_incident_core.Settings.{Settings}
use ops_incident_core.Db.{Source, SourceSync, find_row, update_row}
use ops_incident_core.Security.Roles.{ProjectRole, granted, forbidden, require_project_role}
use ops_incident_core.Security.RateLimit
use ops_incident_core.Api.Response.{Response, HttpError, ok, err, guard}
use ops_incident_core.Api.Store.{Store, Project, Collector}

unfoldable pub enforce_json_size : ℕ → ℕ → Response (Unit {0})
enforce_json_size size max_bytes = guard (leb size max_bytes) HttpError.too_large

-- The role check with its audit row, which outlives the failed request.
unfoldable pub require_role : ℕ → ℕ → ProjectRole → Store → Store × Response (Unit {0})
require_role project_id user_id minimum store =
    let (access, denials) =
      require_project_role store.members project_id user_id minimum store.denials in
    (
      record store { denials = denials },
      elim access [ granted role ↦ ok tt | forbidden ↦ err HttpError.forbidden ],
    )

unfoldable pub project_bypass_allowed : Project → Settings → Bool
project_bypass_allowed project settings =
    not settings.is_production_like
    && (settings.demo_mode_public || project.demo_mode && settings.allow_demo_project_bypass)

unfoldable pub ensure_project_access :
    Settings → ℕ → Option ℕ → ProjectRole → Store → Store × Response (Unit {0})
unfolding project_bypass_allowed require_role
ensure_project_access settings project_id user minimum store =
    elim (find_row Project.id project_id store.projects) [
      | none ↦ (store, err HttpError.not_found)
      | some project ↦
          if project_bypass_allowed project settings then (store, ok tt) else elim user [
            | none ↦ (store, err HttpError.unauthorized)
            | some user_id ↦ require_role project_id user_id minimum store
          ]
    ]

-- `select(Source)` and the role of an admin on the source's project.
unfoldable pub authorize : ℕ → ℕ → Store → Store × Response Source
unfolding require_role
authorize user_id source_id store = elim (find_row Source.id source_id store.database.sources) [
  | none ↦ (store, err HttpError.not_found)
  | some source ↦
      let (store', access) = require_role source.project_id user_id ProjectRole.admin store in
      (store', elim access [ ok _ ↦ ok source | err e ↦ err e ])
]

-- `check_rate_limit`, on the bucket of a user; its memory outlives the request.
unfoldable pub check_rate_limit : Settings → ℕ → ℕ → ℕ → ℕ → Store → Store × Response (Unit {0})
unfolding RateLimit.check
check_rate_limit settings now limit window user_id store =
    if not settings.rate_limit_enabled
    then (store, ok tt)
    else let (bucket, admitted) = RateLimit.check now limit window (store.buckets user_id) in
      let store' = record store {
        buckets = λ u. if u == user_id then bucket else store.buckets u;
      } in
      if admitted then (store', ok tt) else (
        record store' { refusals = store.refusals ++ user_id ∷ [] },
        err HttpError.too_many_requests,
      )

-- `_require_sync`: the sync with this id, if it belongs to the source.
unfoldable pub require_sync : ℕ → ℕ → List SourceSync → Response SourceSync
require_sync sync_id source_id syncs = elim (find_row SourceSync.id sync_id syncs) [
  | none ↦ err HttpError.not_found
  | some sync ↦ if sync.source_id == source_id then ok sync else err HttpError.not_found
]

-- `_validate_collector`: the collector of the project, which has been seen now.
unfoldable pub validate_collector : ℕ → ℕ → Option ℕ → List Collector → Response (List Collector)
validate_collector now project_id none collectors = ok collectors
validate_collector now project_id (some k) collectors = elim (find_row Collector.id k collectors) [
  | none ↦ err HttpError.not_found
  | some collector ↦
      if collector.project_id == project_id
      then ok (update_row Collector.id k (λ c. record c { last_seen_at = now }) collectors)
      else err HttpError.not_found
]

-- `_validate_sync_collector`
unfoldable pub validate_sync_collector : SourceSync → Option ℕ → Response (Unit {0})
validate_sync_collector sync none = ok tt
validate_sync_collector sync (some k) = elim sync.collector_id [
  | none ↦ ok tt
  | some j ↦ guard (j == k) HttpError.bad_request
]
