-- ===== src/Lib.antt =====
-- Tuzka as a service: jobs (page images) are queued in Redis, a submit worker hands them to OCR
-- engines, a poller asks the engines for their state and stores the results, a reaper fails jobs
-- that are stuck, and boxes that host engines follow a weekly schedule.
--
-- Which file models which part:
--   Redis/State      the keyspace that all processes share: job hashes, queues, sets, counters
--                    (app/services/redis_jobs.py, app/schemas/redis.py)
--   Redis/ZSet       sorted sets, by score and member
--   Redis/Queue      pending and delayed queues, claims, orphans (`_add_pending` to `requeue_job`)
--   Redis/Lifecycle  `set_running`, `release_done`, `set_done`, `set_failed`,
--                    `release_and_requeue`, with their Lua scripts
--   Redis/Harvest    the queue of results to store, and the small writes
--   Redis/Rebuild    the recounts that repair the counters
--   Redis/Slots      what the counters have to agree with, and how each state function moves them
--   Redis/Steps      all state functions as steps of any number of callers on one keyspace
--   Redis/Codec      the encoding of a job's hash (app/schemas/redis.py); Redis/Flat  the JSON
--                    object of an engine's run in it; Redis/Written and Redis/RoundTrip  the
--                    fields as written, and reading them back
--   Redis/Idempotence, Redis/Claims, Redis/Peek  repeated calls, two workers, the queue's order
--   Load             counter fields, totals and groups of GET /load (app/services/load.py)
--   Dispatch         `allocate_scored` (app/workers/submit/steps.py and types.py)
--   Submit           `dispatch_job` and what it does with a failure (app/workers/submit/worker.py)
--   Submit/Tick      `run_tick`: health checks, slots, the storage budget and the tiers
--   Submit/Unstored, Submit/Admission  what a dispatch and a tick add to the jobs to be stored
--   Poller           the poller's decisions, delays and window of checks
--                    (app/workers/poller/steps.py); which checks finish is an argument of a round
--   Poller/Check     `check_one`; Poller/Rows, Poller/Harvest  `harvest`, `mark_failed` and what they
--                    write; Poller/Pass  `process_chunk`, `_harvest_due` and the start of the checks
--                    (app/workers/poller/worker.py)
--   Poller/Settle, Poller/Reports  where a harvest leaves its job, and how often it is reported
--   Poller/Tracked, Poller/Safe, Poller/Run  what the poller's steps do to a job, and their runs
--   Retry            retry classes and backoff (app/services/retry_policy.py)
--   Reaper           `select_stale_jobs`, `reap_stale_jobs` (app/services/reaper.py)
--   Box              the parser of schedules, windows, plan, tick and drain
--                    (deploy/box/scheduler/schedule.py)
--   JobSpec          the validation of a submit, and its cache (app/services/job_spec.py); JSON, JSON
--                    Schema and the Unicode tables are arguments
--   Batches          the submit of an archive and its undoing (app/routers/batches.py)
--   Batches/Progress the transactions that end pages and finish a batch
--                    (app/services/batch_store.py)
--   Batches/Retry    the current job of each page, and the retry of a batch
--   RateLimit, Retention, Scopes  the services of the same names (app/services)
--   Vocabulary       enums with code of their own (app/vocabulary.py)
--   Tests            the theorems at concrete inputs
--
-- How the code is rendered. Ids are natural numbers, times are ticks of a clock, a text is its
-- list of code points. A pipeline or a Lua script is one function of the keyspace; functions that
-- make several round trips are composed one after another, and the steps of different callers
-- interleave between whole functions, not within them. Chunks of commands are run in sequence.
-- The expiry of a hash is a step of its own; a write after it makes a hash without the fields of
-- a submit, as in Redis. A wakeup list is the number of its tokens. Redis counters are integers
-- that may go below zero; a backend id is at least 1. Floats in dispatch are the values of an
-- interface with a total order; seconds per page, the rate limiter's times and the backoff (in
-- milliseconds) are natural numbers of a unit. What an engine, the image store or docker answers
-- is an argument, and so is whether the database takes the rows of a dispatch and of a failed
-- harvest: where it does not, the keyspace keeps what was written before. Loops are structural
-- recursion on what they loop over, so that no fuel is used.
--
-- The steps of the callers keep the conditions that the code relies on: `set_running` is called on a
-- whole hash that is not in flight, `enqueue_jobs` on ids that are not in flight, and snapshots
-- name what the hash stores. A duplicated dispatch is outside these steps. The recounts are taken as
-- calls between which no other caller writes. JSON objects are their names and values, a value
-- being its text; `json.dumps` and `json.loads` are arguments, as are Python's texts of numbers.
--
-- Not modelled: a database that fails before the keyspace is written in a dispatch, or within
-- `process_chunk`; HTTP routers and clients, database queries and migrations, the HTTP calls of engine
-- adapters, metrics and events, deployment, and of the workers the background syncs of domains, the
-- stage timers, the statistics of outputs; of batches the results archive and
-- the queueing of their pages.
pub mod Prelude
pub mod Redis
pub mod Load
pub mod Dispatch
pub mod Box
pub mod Retry
pub mod Poller
pub mod RateLimit
pub mod Retention
pub mod Scopes
pub mod Vocabulary
pub mod JobSpec
pub mod Batches
pub mod Reaper
pub mod Submit
pub mod Tests
