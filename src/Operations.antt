-- ===== src/Operations.antt =====
-- Runs of the operational agents: incidentops/operations/service.py, the handlers of
-- incidentops/worker/jobs.py that run them, and apps/api/routes/operations.py, which asks for them.
pub mod Runs
pub mod Observer
pub mod Agents
pub mod Jobs
