-- ===== src/Poller/Rows.antt =====
-- What the poller changes besides the keyspace: the jobs' rows and their results, the failures
-- recorded against backends and the done events (app/workers/poller/worker.py, app/models/job.py).
use tuzka_as_a_service.Prelude.{
  ℕ, Bool, true, false, Option, none, some, List, [], ◌∷◌, Text, text_eq, if◌then◌else◌, update,
}
use tuzka_as_a_service.Redis.State.{JobStatus, done, EngineRun, Store}
use tuzka_as_a_service.Poller.Plan.{Attempt}

-- A row of `job_results`; the stamp of its eviction, which a harvest clears, is left out.
pub record JobResult : Type 0 where
  pub fmt : Text
  pub presigned_url : Text
  pub presigned_until : ℕ
  pub size_bytes : ℕ

-- A row of `jobs`, its columns that the poller writes.
pub record PolledRow : Type 0 where
  pub status : JobStatus
  pub dispatched_at : Option ℕ
  pub engine_job_id : Option Text
  pub backend_id : Option ℕ
  pub requeues : ℕ
  pub attempts : List Attempt
  pub error : Option Text
  pub engine_received_at : Option ℕ
  pub started_at : Option ℕ
  pub finished_at : Option ℕ
  pub stored_at : Option ℕ
  pub results : List JobResult

-- `reported` holds the jobs whose done event was published, one entry for each publication.
pub record PollWorld : Type 0 where
  pub store : Store
  pub rows : ℕ → Option PolledRow
  pub failures : List (ℕ × Text)
  pub reported : List ℕ

-- UPDATE of one row, which changes nothing where the row is gone.
abbrev pub update_row : ℕ → (PolledRow → PolledRow) → (ℕ → Option PolledRow) → ℕ → Option PolledRow
update_row id f rows = update id (elim (rows id) [ none ↦ none | some row ↦ some (f row) ]) rows

abbrev pub is_done : JobStatus → Bool
is_done done = true
is_done _ = false

abbrev pub row_done : Option PolledRow → Bool
row_done none = false
row_done (some row) = is_done row.status

-- `update(Job).where(Job.id == job_id, Job.status != JobStatus.DONE)`.
abbrev pub unless_done : (PolledRow → PolledRow) → PolledRow → PolledRow
unless_done f row = if is_done row.status then row else f row

-- The engine's stamps as columns, for the ones that it reported.
pub record Stamps : Type 0 where
  pub engine_received_at : Option ℕ
  pub started_at : Option ℕ
  pub finished_at : Option ℕ

abbrev pub kept_or : Option ℕ → Option ℕ → Option ℕ
kept_or none old = old
kept_or (some t) old = some t

-- The upsert of one result.
unfoldable pub upsert : JobResult → List JobResult → List JobResult
upsert new [] = new ∷ []
upsert new (old ∷ results) =
    let rest = upsert new results in if text_eq old.fmt new.fmt then new ∷ results else old ∷ rest

unfoldable pub upsert_all : List JobResult → List JobResult → List JobResult
unfolding upsert
upsert_all [] results = results
upsert_all (new ∷ more) results = upsert_all more (upsert new results)

-- `_parse_engine_dt` and `engine_stamps` of app/workers/poller/steps.py; `fromisoformat` reads a
-- text as a time, to UTC.
module _ (fromisoformat : Text → Option ℕ) where
  unfoldable pub parse_engine_dt : Option Text → Option ℕ
  parse_engine_dt none = none
  parse_engine_dt (some []) = none
  parse_engine_dt (some (c ∷ value)) = fromisoformat (c ∷ value)

  unfoldable pub engine_stamps : EngineRun → Stamps
  unfolding parse_engine_dt
  engine_stamps run = record {
    engine_received_at = parse_engine_dt run.created_at;
    started_at = parse_engine_dt run.started_at;
    finished_at = parse_engine_dt run.finished_at;
  }
