-- ===== src/Sync/Lifecycle/Sessions.antt =====
-- What the checks before a handler leave alone, and what a session commits.
use ops_incident_core.Prelude.{ℕ, ◌≡◌, inl, inr, refl, some, List, subst, arith, Option-cases}
use ops_incident_core.Settings.{Settings}
use ops_incident_core.Db.{Database, Source, SourceSync, find_row}
use ops_incident_core.Security.Roles.{ProjectRole}
use ops_incident_core.Api.Response.{Response, ◌>>=◌, ok, err, chain_ok}
use ops_incident_core.Api.Store.{Store, get_db}
use ops_incident_core.Api.Access.{require_role, authorize, check_rate_limit, require_sync}
use ops_incident_core.Sync.Batch.{limit_batches}
use ops_incident_core.Sync.Lifecycle.Rows.{Carries, Carries-refl}

-- The checks before a handler's own work write no table of the database.
require_role-database :
    (project_id user_id : ℕ) (minimum : ProjectRole) (store : Store)
    → (require_role project_id user_id minimum store).0.database ≡ store.database
unfolding require_role
require_role-database project_id user_id minimum store = refl

pub authorize-database :
    (user_id source_id : ℕ) (store : Store)
    → (authorize user_id source_id store).0.database ≡ store.database
unfolding authorize require_role
authorize-database user_id source_id store =
    elim (Option-cases (find_row Source.id source_id store.database.sources)) [
      | inl e ↦ rw (e, authorize)
      | inr (source, e) ↦ rw (e, authorize)
    ]

check_rate_limit-database :
    (settings : Settings) (now limit window user_id : ℕ) (store : Store)
    → (check_rate_limit settings now limit window user_id store).0.database ≡ store.database
unfolding check_rate_limit
check_rate_limit-database settings now limit window user_id store = ground arith

pub limit_batches-database :
    (settings : Settings) (now user_id : ℕ) (access : Response Source) (store : Store)
    → (limit_batches settings now user_id access store).0.database ≡ store.database
unfolding limit_batches
limit_batches-database settings now user_id (ok source) store =
    check_rate_limit-database settings now _ 3600 user_id store
limit_batches-database settings now user_id (err e) store = refl

-- A session commits what the handler wrote, or leaves the database as it was.
get_db_lem {ℓ κ} :
    {A : Type ℓ} (P : Database → Type κ) (store : Store) (r : Response (Store × A))
    → P store.database
    → ((p : Store × A) → r ≡ ok p → P p.0.database)
    → P (get_db store r).0.database
unfolding get_db
get_db_lem P store (ok p) h g = g p refl
get_db_lem P store (err e) h g = h

-- The same where the handler needs the value of a check.
pub session_lem {ℓ κ μ} :
    {A : Type ℓ} {B : Type κ} (P : Database → Type μ) (store : Store) (access : Response B)
    (f : B → Response (Store × A))
    → P store.database
    → ((b : B) (p : Store × A) → f b ≡ ok p → P p.0.database)
    → P (get_db store (access >>= f)).0.database
session_lem P store access f h g =
    get_db_lem P store (access >>= f) h (λ p e. let (b, _, hb) = chain_ok access f e in g b p hb)

-- A session whose handler carries the rows on, over tables that the checks have left alone.
pub session-Carries {ℓ κ} :
    {A : Type ℓ} {B : Type κ} (rows : List SourceSync) (store : Store) (access : Response B)
    (f : B → Response (Store × A))
    → store.database.syncs ≡ rows
    → ((b : B) (p : Store × A) → f b ≡ ok p → Carries store.database.syncs p.0.database.syncs)
    → Carries rows (get_db store (access >>= f)).0.database.syncs
session-Carries rows store access f e h =
    subst (λ r. Carries r (get_db store (access >>= f)).0.database.syncs) e
      (session_lem (λ db. Carries store.database.syncs db.syncs) store access f
        (Carries-refl store.database.syncs) h)

pub authorize-syncs :
    (user_id source_id : ℕ) (store : Store)
    → (authorize user_id source_id store).0.database.syncs ≡ store.database.syncs
authorize-syncs user_id source_id store = rw authorize-database refl

-- The sync that a request names is the row with its identifier, and belongs to the source.
pub require_sync-found :
    (sync_id source_id : ℕ) (syncs : List SourceSync) {sync : SourceSync}
    → require_sync sync_id source_id syncs ≡ ok sync
    → (find_row SourceSync.id sync_id syncs ≡ some sync) × (sync.source_id ≡ source_id)
unfolding require_sync
require_sync-found sync_id source_id syncs {sync} h =
    elim (Option-cases (find_row SourceSync.id sync_id syncs)) [
      | inl e ↦ cc (rw (e, require_sync) at h)
      | inr (s, e) ↦ ground (arith, rw (e, require_sync) at h)
    ]
