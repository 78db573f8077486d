-- ===== src/Redis.antt =====
-- The job state that taas keeps in Redis (app/services/redis_jobs.py, app/schemas/redis.py).
pub mod ZSet
pub mod State
pub mod Queue
pub mod Lifecycle
pub mod Harvest
pub mod Slots
pub mod Rebuild
pub mod Steps
pub mod Codec
pub mod Flat
pub mod Written
pub mod RoundTrip
pub mod Idempotence
pub mod Claims
pub mod Peek
