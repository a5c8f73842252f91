-- ===== src/Retrieval/Hybrid.antt =====
-- incidentops/retrieval/hybrid_search.py: the four branches of a search, the fusion of their
-- ranks, and the boosts by metadata.
pub mod Sources
pub mod Boost
pub mod Fusion
pub mod Search
