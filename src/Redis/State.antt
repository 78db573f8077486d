-- ===== src/Redis/State.antt =====
-- A job's hash `job:<id>`, a batch's counters and the whole keyspace of app/services/redis_jobs.py.
use tuzka_as_a_service.Prelude.{
  ℕ, ◌+◌, Bool, true, false, Option, none, some, List, ◌==◌, Text, if◌then◌else◌, text_eq,
}
use tuzka_as_a_service.Prelude.Int.{ℤ, ◌+ℤ◌}
use tuzka_as_a_service.Redis.ZSet.{ZSet}

pub data JobStatus : Type 0 where
  queued running storing done failed : JobStatus

-- `TERMINAL_JOB_STATUSES`.
abbrev pub is_terminal : JobStatus → Bool
is_terminal done = true
is_terminal failed = true
is_terminal _ = false

abbrev pub is_queued : JobStatus → Bool
is_queued queued = true
is_queued _ = false

-- A JSON object: its names and values. A value other than null is its text.
abbrev pub Json : Type 0
Json = List (Text × Option Text)

-- The engine's last status of a run: its time stamps, and its metrics as (name, JSON text).
pub record EngineRun : Type 0 where
  pub created_at : Option Text
  pub started_at : Option Text
  pub finished_at : Option Text
  pub metrics : List (Text × Text)

pub record JobState : Type 0 where
  pub status : JobStatus
  pub username : Text
  pub external_id : Option Text
  pub batch_id : Option ℕ
  pub fmt : Text
  pub domain : Text
  pub outputs : List Text
  pub options : Json
  pub ext : Text
  pub megapixels : ℕ
  pub submitted_at : ℕ
  pub priority : ℕ
  pub trace : List (Text × Text)
  pub claimed_at : Option ℕ
  pub queue_score : Option ℕ
  pub avoid_backends : List ℕ
  pub requeues : ℕ
  pub engine_job_id : Option Text
  pub backend_url : Option Text
  pub backend_id : Option ℕ
  pub next_poll_at : Option ℕ
  pub last_poll : Option ℕ
  pub harvest_times : Option EngineRun
  pub harvest_attempts : ℕ
  pub error : Option Text
  pub finished_at : Option ℕ

-- What a hash holds that lacks a submit's fields: a write after the key's expiry made it anew.
pub record Remnant : Type 0 where
  pub status : Option JobStatus
  pub claimed_at : Option ℕ
  pub backend_id : Option ℕ

abbrev pub empty_remnant : Remnant
empty_remnant = record { status = none; claimed_at = none; backend_id = none }

-- What HGETALL finds: no key, a hash without a submit's fields, or a whole job.
pub data Hash : Type 0 where
  absent : Hash
  partial : Remnant → Hash
  whole : JobState → Hash

-- `_parse_state`: a hash that is not a whole job's counts as expired.
abbrev pub parse_state : Hash → Option JobState
parse_state absent = none
parse_state (partial m) = none
parse_state (whole s) = some s

-- HSET of fields that no submit needs, as it changes a remnant and a whole job. A missing key
-- is made anew.
abbrev pub hset : (Remnant → Remnant) → (JobState → JobState) → Hash → Hash
hset g f absent = partial (g empty_remnant)
hset g f (partial m) = partial (g m)
hset g f (whole s) = whole (f s)

-- HDEL changes no key that is missing.
abbrev pub hdel : (Remnant → Remnant) → (JobState → JobState) → Hash → Hash
hdel g f absent = absent
hdel g f (partial m) = partial (g m)
hdel g f (whole s) = whole (f s)

abbrev pub exists : Hash → Bool
exists absent = false
exists (partial m) = true
exists (whole s) = true

-- A missing counter field reads as its default, 0.
pub record BatchCounts : Type 0 where
  pub total : ℕ
  pub done_pages : ℕ
  pub failed_pages : ℕ

-- The keys. Times are ticks of a clock. `backend:<id>:batches` is `backend_batches`.
pub record Store : Type 0 where
  pub jobs : ℕ → Hash
  pub expiry : ℕ → ℕ
  pub pending : ℕ → ZSet
  pub levels : List ℕ
  pub delayed : ZSet
  pub inflight : List ℕ
  pub pending_harvest : ZSet
  pub load_queued : Text → ℤ
  pub load_inflight : Text → ℤ
  pub backend_inflight : ℕ → ℤ
  pub backend_batches : ℕ → ℕ → Option ℤ
  pub batches : ℕ → BatchCounts
  pub submit_wakeup : ℕ
  pub poll_wakeup : ℕ

-- HINCRBY on a hash of counters keyed by load field.
abbrev pub bump : Text → ℤ → (Text → ℤ) → Text → ℤ
bump k d m f = if text_eq k f then m f +ℤ d else m f

-- INCRBY on a family of counters keyed by backend.
abbrev pub bump_at : ℕ → ℤ → (ℕ → ℤ) → ℕ → ℤ
bump_at k d m b = if k == b then m b +ℤ d else m b

-- `get_job`.
abbrev pub get_job : Store → ℕ → Option JobState
get_job r id = parse_state (r.jobs id)

-- `signal_submit` and `signal_poll` push a token; the waits take all of them off.
abbrev pub signal_submit : Store → Store
signal_submit r = record r { submit_wakeup = r.submit_wakeup + 1 }

abbrev pub signal_poll : Store → Store
signal_poll r = record r { poll_wakeup = r.poll_wakeup + 1 }

abbrev pub wait_for_submit_signal : Store → Store
wait_for_submit_signal r = record r { submit_wakeup = 0 }
