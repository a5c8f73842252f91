-- ===== src/Sync.antt =====
-- The syncs of a source: start, batches of documents and finish, the routes of
-- apps/api/routes/sources.py that a collector calls in this order.
pub mod Diagnostics
pub mod Requests
pub mod Start
pub mod Batch
pub mod Finish
pub mod Lifecycle
pub mod Endings
pub mod Repeats
pub mod Queueing
pub mod Settling
pub mod Consistency
pub mod Counters
