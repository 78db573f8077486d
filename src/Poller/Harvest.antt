-- ===== src/Poller/Harvest.antt =====
-- Storing the results of a job whose engine is done, and failing a job for good: `harvest`,
-- `_harvest`, `_harvest_failed` and `mark_failed` of app/workers/poller/worker.py. What the engine,
-- the storage and the database answer are arguments.
use tuzka_as_a_service.Prelude.{
  ℕ, ◌+◌, Bool, true, false, not, Option, none, some, List, [], ◌∷◌, ◌++◌, Text, if◌then◌else◌,
  or_else, map, sort_texts, length,
}
use tuzka_as_a_service.Retry.{backoff, counts_against_backend}
use tuzka_as_a_service.Redis.State.{JobState, done, failed, EngineRun}
use tuzka_as_a_service.Redis.Harvest.{reschedule_harvest}
use tuzka_as_a_service.Redis.Lifecycle.{set_done, set_failed}
use tuzka_as_a_service.Poller.Plan.{Attempt, harvest_stage}
use tuzka_as_a_service.Poller.Check.{empty_run}
use tuzka_as_a_service.Poller.Rows.{
  JobResult, PolledRow, PollWorld, update_row, row_done, unless_done, kept_or, upsert_all,
  engine_stamps,
}

-- What a harvest's calls raise: a database error, whose connection was dropped or not, a transport
-- or an operating system's error, an exhausted pool, or anything else.
pub data HarvestExn : Type 0 where
  db_error : Bool → Text → HarvestExn
  transport_error os_error pool_timeout other_error : Text → HarvestExn

abbrev pub text_of : HarvestExn → Text
text_of (db_error dropped text) = text
text_of (transport_error text) = text
text_of (os_error text) = text
text_of (pool_timeout text) = text
text_of (other_error text) = text

-- `is_transient_harvest_error`.
unfoldable pub is_transient_harvest_error : HarvestExn → Bool
is_transient_harvest_error (db_error dropped text) = dropped
is_transient_harvest_error (other_error text) = false
is_transient_harvest_error _ = true

-- How `_report_done` and the calls before it ended: all were sent, or one failed before or after the
-- done event was published.
pub data Report : Type 0 where
  all_sent : Report
  not_sent : HarvestExn → Report
  sent_then : HarvestExn → Report

-- How a harvest's calls went. `unavailable`: an output that the engine cannot produce. `broken`: a
-- call failed before the job was recorded as done. `stored`: the outputs were stored and the
-- transaction that records them was committed; then the calls up to `set_done` may fail, or those
-- after it that report the job.
pub data HarvestAnswer : Type 0 where
  unavailable : Text → HarvestAnswer
  broken : HarvestExn → HarvestAnswer
  stored : (Text → List ℕ) → Option HarvestExn → Report → HarvestAnswer

-- How the database answers `mark_failed`: it is lost before the job's status is read, or it is read
-- and the transaction that writes the row is committed, or not.
pub data Marking : Type 0 where
  unread : Marking
  status_read : Bool → Marking

-- The surroundings of a harvest. `marking` is how the database answers a job's failure, `uniform` draws the backoff, `compress` is zstd, `presign` the URL of
-- an output's object.
pub record Surroundings : Type 0 where
  pub now : ℕ
  pub state_ttl : ℕ
  pub presigned_ttl : ℕ
  pub marking : ℕ → Marking
  pub uniform : ℕ → ℕ
  pub fromisoformat : Text → Option ℕ
  pub compress : List ℕ → List ℕ
  pub presign : Text → Text

abbrev with_stamps : Surroundings → Option EngineRun → PolledRow → PolledRow
with_stamps e none row = row
with_stamps e (some run) row =
    let stamps = engine_stamps e.fromisoformat run in
    record row {
      engine_received_at = kept_or stamps.engine_received_at row.engine_received_at;
      started_at = kept_or stamps.started_at row.started_at;
      finished_at = kept_or stamps.finished_at row.finished_at;
    }

abbrev with_attempt : Option Attempt → PolledRow → PolledRow
with_attempt none row = row
with_attempt (some attempt) row = record row { attempts = row.attempts ++ (attempt ∷ []) }

-- The failure counts against the attempt's backend.
abbrev blame : Option Attempt → Text → List (ℕ × Text) → List (ℕ × Text)
blame none domain failures = failures
blame (some attempt) domain failures = elim attempt.backend_id [
  | none ↦ failures
  | some b ↦ if counts_against_backend attempt.http_status then (b, domain) ∷ failures else failures
]

abbrev fail_row : Surroundings → Text → Option Attempt → Option EngineRun → PolledRow → PolledRow
fail_row e error attempt run = unless_done (λ row. with_attempt attempt (
    with_stamps e run
      (record row { status = failed; error = some error; finished_at = some e.now })))

-- `mark_failed`. A database error ends it where it is raised: after `set_failed` the keyspace has
-- the failure and the row does not.
unfoldable pub mark_failed :
    Marking
    → Surroundings
    → ℕ
    → JobState
    → Text
    → Option Attempt
    → Option EngineRun
    → PollWorld
    → PollWorld
unfolding set_done set_failed counts_against_backend engine_stamps
mark_failed unread e job_id state error attempt run w = w
mark_failed (status_read committed) e job_id state error attempt run w =
    if row_done (w.rows job_id)
    then record w { store = (set_done job_id e.state_ttl (some state) e.now w.store).0 }
    else record w {
      store = (set_failed job_id error e.state_ttl e.now w.store).0;
      failures = blame attempt state.domain w.failures;
      rows = if committed then update_row job_id (fail_row e error attempt run) w.rows else w.rows;
    }

-- `_harvest_failed`.
unfoldable pub harvest_failed :
    Surroundings → ℕ → JobState → EngineRun → HarvestExn → PollWorld → PollWorld
unfolding is_transient_harvest_error reschedule_harvest mark_failed backoff
harvest_failed e job_id state run error w =
    if is_transient_harvest_error error
    then record w {
      store =
          reschedule_harvest job_id (backoff e.uniform (state.harvest_attempts + 1)) e.now w.store;
    }
    else mark_failed (e.marking job_id) e job_id state (text_of error) none (some run) w

-- `_store_output`'s row of one output.
abbrev pub result_row : Surroundings → (Text → List ℕ) → Text → JobResult
result_row e content output = record {
  fmt = output;
  presigned_url = e.presign output;
  presigned_until = e.now + e.presigned_ttl;
  size_bytes = length (e.compress (content output));
}

abbrev pub result_rows : Surroundings → (Text → List ℕ) → JobState → List JobResult
result_rows e content state = map (result_row e content) (sort_texts state.outputs)

abbrev pub done_row : Surroundings → EngineRun → PolledRow → PolledRow
done_row e run row =
    let stamps = engine_stamps e.fromisoformat run in
    record row {
      status = done;
      stored_at = some e.now;
      engine_received_at = kept_or stamps.engine_received_at row.engine_received_at;
      started_at = kept_or stamps.started_at row.started_at;
      finished_at = some (or_else stamps.finished_at e.now);
    }

-- The update's row count: the row is there and was not done.
abbrev pub first_of : Option PolledRow → Bool
first_of none = false
first_of (some row) = not (row_done (some row))

-- `_record_done`: the rows after it, and whether this harvest is the first to mark the job done. The
-- results of a job whose row is gone go with it.
unfoldable pub record_done :
    Surroundings
    → ℕ
    → EngineRun
    → List JobResult
    → (ℕ → Option PolledRow)
    → (ℕ → Option PolledRow) × Bool
unfolding upsert_all engine_stamps
record_done e job_id run results rows = (
  update_row job_id
      (λ row.
        unless_done (done_row e run) (record row { results = upsert_all results row.results }))
      rows,
  first_of (rows job_id),
)

-- The done event of a first harvest went out.
abbrev pub report_done : Bool → Report → ℕ → List ℕ → List ℕ
report_done false report job_id reported = reported
report_done true all_sent job_id reported = job_id ∷ reported
report_done true (not_sent error) job_id reported = reported
report_done true (sent_then error) job_id reported = job_id ∷ reported

-- An error while reporting is handled like any other.
abbrev pub after_report : Surroundings → ℕ → JobState → EngineRun → Report → PollWorld → PollWorld
after_report e job_id state run all_sent w = w
after_report e job_id state run (not_sent error) w = harvest_failed e job_id state run error w
after_report e job_id state run (sent_then error) w = harvest_failed e job_id state run error w

-- The commit of `_record_done`.
abbrev pub recorded :
    Surroundings → ℕ → JobState → EngineRun → (Text → List ℕ) → PollWorld → PollWorld
recorded e job_id state run content w = record w {
  rows = (record_done e job_id run (result_rows e content state) w.rows).0;
}

-- `set_done` and the report; `first` says whether this harvest marked the job done.
abbrev pub set_and_reported : Surroundings → ℕ → JobState → Bool → Report → PollWorld → PollWorld
set_and_reported e job_id state first report w = record w {
  store = (set_done job_id e.state_ttl (some state) e.now w.store).0;
  reported = report_done first report job_id w.reported;
}

abbrev pub run_of : JobState → Option EngineRun → EngineRun
run_of state none = or_else state.harvest_times empty_run
run_of state (some run) = run

abbrev pub unavailable_attempt : Surroundings → JobState → Text → Attempt
unavailable_attempt e state text = record {
  stage = harvest_stage;
  backend_id = state.backend_id;
  http_status = some 409;
  error = text;
  retry = false;
  at = e.now;
}

abbrev harvest_as : Surroundings → ℕ → JobState → EngineRun → HarvestAnswer → PollWorld → PollWorld
harvest_as e job_id state run (unavailable text) w =
    mark_failed (e.marking job_id) e job_id state text (some (unavailable_attempt e state text))
      (some run) w
harvest_as e job_id state run (broken error) w = harvest_failed e job_id state run error w
harvest_as e job_id state run (stored content early report) w = elim early [
  | none ↦ after_report e job_id state run report (
      set_and_reported e job_id state
        (record_done e job_id run (result_rows e content state) w.rows).1 report
        (recorded e job_id state run content w))
  | some error ↦ harvest_failed e job_id state run error (recorded e job_id state run content w)
]

-- `harvest`.
unfoldable pub harvest :
    Surroundings → ℕ → JobState → Option EngineRun → HarvestAnswer → PollWorld → PollWorld
unfolding harvest_failed record_done set_done mark_failed
harvest e job_id state run answer w = harvest_as e job_id state (run_of state run) answer w
