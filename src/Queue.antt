-- ===== src/Queue.antt =====
-- The queues of events (src/shared/queue and src/events).
pub mod RetryFailed
