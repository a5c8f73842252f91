-- ===== src/Investigation.antt =====
-- incidentops/investigation: from packed evidence to the assessment of an incident.
pub mod Findings
pub mod Hypotheses
pub mod Timeline
pub mod Confidence
pub mod Service
