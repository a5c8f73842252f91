-- ===== src/Sync/Settling.antt =====
-- How a source leaves `indexing`: deliveries to workers after the sync is finished.
pub mod Tables
pub mod Deliveries
pub mod Progress
