-- ===== src/Readiness.antt =====
-- Project readiness: incidentops/readiness/service.py.
pub mod Counts
pub mod Score
pub mod Report
