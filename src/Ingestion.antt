-- ===== src/Ingestion.antt =====
-- incidentops/ingestion: how documents are screened, texts split and failures reported.
pub mod Chunker
pub mod Failures
pub mod SourceTypes
pub mod Documents
