-- ===== src/Sync/Lifecycle.antt =====
-- The life of a sync under every request and every delivery of a job: what the routes of
-- apps/api/routes/sources.py and the handler of incidentops/worker/jobs.py do to its row.
pub mod Rows
pub mod Sessions
mod Starting
pub mod Ingesting
pub mod Finishing
pub mod Delivering
pub mod Actions
pub mod Phases
