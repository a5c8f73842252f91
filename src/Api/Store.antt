-- ===== src/Api/Store.antt =====
-- The tables and the state of the process that a handler works on, and its session: the tables
-- are those of `get_db` of incidentops/db/session.py, which rolls a failed request back.
use ops_incident_core.Prelude.{ℕ, Bool, Option, List}
use ops_incident_core.Db.{Database}
use ops_incident_core.Security.Roles.{ProjectMember, Denial}
use ops_incident_core.Api.Response.{Response, ok, err}

-- The row of `projects`, as far as access reads it.
pub record Project : Type 0 where
  pub id : ℕ
  pub demo_mode : Bool

-- Names and environments are only compared, so they are natural numbers.
pub record Collector : Type 0 where
  pub id : ℕ
  pub project_id : ℕ
  pub name : ℕ
  pub environment : Option ℕ
  pub version : Option ℕ
  pub last_seen_at : ℕ

-- `audit_events` of the database is the part of that table that the handlers write. The rows that
-- a check commits when it refuses a request stand beside it: `denials` are those of refused roles
-- (`permission_denied`), `refusals` those of users that the limiter has refused
-- (`rate_limit_exceeded`). `buckets` is the limiter's memory for each user.
pub record Store : Type 0 where
  pub database : Database
  pub projects : List Project
  pub members : List ProjectMember
  pub collectors : List Collector
  pub denials : List Denial
  pub buckets : ℕ → List ℕ
  pub refusals : List ℕ

-- What the transaction writes on success, and nothing of it on an error.
unfoldable pub get_db {ℓ} : {A : Type ℓ} → Store → Response (Store × A) → Store × Response A
get_db store (ok (store', a)) = (store', ok a)
get_db store (err e) = (store, err e)
