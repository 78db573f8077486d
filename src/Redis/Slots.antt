-- ===== src/Redis/Slots.antt =====
-- What the Redis counters of app/services/redis_jobs.py stand for: a backend's in-flight count, a
-- load field's in-flight count and a backend's pages of a batch are counts of jobs in the
-- in-flight set.
mod Tally
pub mod Release
pub mod Stay
pub mod Queues
pub mod Enter
pub use Tally.*
