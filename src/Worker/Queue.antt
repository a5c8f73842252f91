-- ===== src/Worker/Queue.antt =====
-- The job queue: `JobQueue`, `InlineQueue` and `RedisQueue` of incidentops/worker/queue.py.
pub mod Job
pub mod Inline
pub mod Redis
