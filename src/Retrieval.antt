-- ===== src/Retrieval.antt =====
-- incidentops/retrieval: what a query asks for and the evidence that is packed for it.
pub mod Words
pub mod Intent
pub mod Chunk
pub mod Compact
pub mod Packing
pub mod Reranking
pub mod Hybrid
