-- ===== src/Security.antt =====
-- Access control, rate limits and the screening of source configurations:
-- incidentops/security/.
pub mod Roles
pub mod RateLimit
pub mod SourceConfig
pub mod Login
