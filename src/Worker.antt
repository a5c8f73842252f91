-- ===== src/Worker.antt =====
-- The background worker: incidentops/worker/.
pub mod IndexJob
pub mod Dispatch
pub mod Queue
pub mod Process
