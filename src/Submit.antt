-- ===== src/Submit.antt =====
-- Dispatching one claimed job: `dispatch_job` of app/workers/submit/worker.py and what a failed
-- dispatch means (app/workers/submit/steps.py). The image store and the engine answer as values;
-- the events that it emits and publishes are left out.
pub mod Safe
pub mod Budget
pub mod Tick
pub mod Unstored
pub mod Admission
use tuzka_as_a_service.Prelude.{
  ℕ, suc, ◌+◌, Bool, true, false, ◌&&◌, Option, none, some, List, [], ◌∷◌, ◌++◌, Text, codes, ltb,
  if◌then◌else◌, update,
}
use tuzka_as_a_service.Retry.{
  Exn, transport_error, http_status_error, other_error, http_status_of, is_retryable_dispatch_error,
  counts_against_backend, backoff,
}
use tuzka_as_a_service.Poller.Plan.{Attempt, dispatch}
use tuzka_as_a_service.Redis.State.{JobState, JobStatus, queued, running, failed, Store}
use tuzka_as_a_service.Redis.Queue.{requeue_job, schedule_retry}
use tuzka_as_a_service.Redis.Harvest.{count_requeue}
use tuzka_as_a_service.Redis.Lifecycle.{set_running, set_failed}
use tuzka_as_a_service.Dispatch.Types.{Domains, serves}

-- `describe_exception`: the text of an exception stands for its description.
abbrev pub describe_exception : Exn → Text
describe_exception (transport_error text) = text
describe_exception (http_status_error code text) = text
describe_exception (other_error text) = text

pub record DispatchFailure : Type 0 where
  pub error : Text
  pub http_status : Option ℕ
  pub transient : Bool
  pub transport : Bool

abbrev is_transport : Exn → Bool
is_transport (transport_error text) = true
is_transport _ = false

-- `classify_dispatch_error`.
unfoldable pub classify_dispatch_error : Exn → DispatchFailure
unfolding is_retryable_dispatch_error
classify_dispatch_error e = record {
  error = describe_exception e;
  http_status = http_status_of e;
  transient = is_retryable_dispatch_error e;
  transport = is_transport e;
}

-- `failed_dispatch_attempt`.
abbrev pub failed_dispatch_attempt : ℕ → Option ℕ → Text → ℕ → Attempt
failed_dispatch_attempt backend_id http_status error now = record {
  stage = dispatch;
  backend_id = some backend_id;
  http_status = http_status;
  error = error;
  retry = false;
  at = now;
}

-- `retried_dispatch_attempt`.
abbrev pub retried_dispatch_attempt : ℕ → Option ℕ → Text → ℕ → Attempt
retried_dispatch_attempt backend_id http_status error now =
    record (failed_dispatch_attempt backend_id http_status error now) { retry = true }

-- The columns of a job's row that a dispatch writes.
pub record JobRow : Type 0 where
  pub status : JobStatus
  pub dispatched_at : Option ℕ
  pub engine_job_id : Option Text
  pub backend_id : Option ℕ
  pub requeues : ℕ
  pub attempts : List Attempt
  pub error : Option Text
  pub finished_at : Option ℕ

-- What a dispatch changes: the keyspace, the rows, the health this worker remembers of each
-- backend, and the failures recorded against a backend's domain.
pub record World : Type 0 where
  pub store : Store
  pub rows : ℕ → JobRow
  pub health_cache : ℕ → Option (Bool × ℕ)
  pub failures : List (ℕ × Text)

-- What the engine did: it refused as full, the call failed, or it took the job as its own id. The
-- steps between its answer and `set_running` may fail too.
pub data Answer : Type 0 where
  engine_full : Answer
  refused : Exn → Answer
  accepted : Text → Option Exn → Answer

pub record Target : Type 0 where
  pub id : ℕ
  pub url : Text

-- One dispatch's surroundings. `row_written` and `outcome_written` say whether the row of a running
-- job and the row of a job that is retried or failed could be
-- written; `uniform` draws the backoff.
pub record Run : Type 0 where
  pub now : ℕ
  pub next_poll : ℕ
  pub state_ttl : ℕ
  pub max_requeues : ℕ
  pub row_written : Bool
  pub outcome_written : Bool
  pub uniform : ℕ → ℕ
  pub number_text : ℕ → Text

-- The rows after the transaction that records a retry or a failure.
abbrev pub written : Run → (ℕ → JobRow) → (ℕ → JobRow) → ℕ → JobRow
written e after before = if e.outcome_written then after else before

-- `_fail_job`.
unfoldable pub fail_job : Run → ℕ → Attempt → World → World
unfolding set_failed
fail_job e job_id attempt w =
    let row = w.rows job_id in
    record w {
      store = (set_failed job_id attempt.error e.state_ttl e.now w.store).0;
      rows =
          written e
            (update job_id
              (record row {
                status = failed;
                error = some attempt.error;
                finished_at = some e.now;
                attempts = row.attempts ++ (attempt ∷ []);
              })
              w.rows)
            w.rows;
    }

-- `_retry_later`: the keyspace has the retry before the row is written, which may fail.
unfoldable pub retry_later : Run → ℕ → ℕ → JobState → Target → DispatchFailure → World → World
unfolding schedule_retry count_requeue backoff
retry_later e job_id original_score state backend d w =
    let row = w.rows job_id in
    record w {
      store =
          schedule_retry job_id original_score (backoff e.uniform state.requeues) (some backend.id)
            e.now (count_requeue job_id w.store);
      rows =
          written e
            (update job_id
              (record row {
                requeues = row.requeues + 1;
                attempts =
                    row.attempts
                    ++ (retried_dispatch_attempt backend.id d.http_status d.error e.now ∷ []);
              })
              w.rows)
            w.rows;
      health_cache = update backend.id (some (false, e.now)) w.health_cache;
      failures = (backend.id, state.domain) ∷ w.failures;
    }

abbrev pub exceeded : Run → DispatchFailure → Text
exceeded e d =
    if d.transient
    then d.error
      ++ codes " (exceeded "
      ++ e.number_text e.max_requeues
      ++ codes " requeue attempts)"
    else d.error

-- Whether the failure is transient with budget left.
abbrev pub is_worth_retry : Run → JobState → DispatchFailure → Bool
is_worth_retry e state d = d.transient && ltb state.requeues e.max_requeues

abbrev pub terminal_attempt : Run → Target → DispatchFailure → Attempt
terminal_attempt e backend d = failed_dispatch_attempt backend.id d.http_status (exceeded e d) e.now

-- `perf.record_failure`, where the failure counts against the backend.
unfoldable pub note_failure : JobState → Target → DispatchFailure → World → World
unfolding counts_against_backend
note_failure state backend d w =
    if counts_against_backend d.http_status
    then record w { failures = (backend.id, state.domain) ∷ w.failures }
    else w

-- `_dispatch_failed`.
unfoldable pub dispatch_failed : Run → ℕ → ℕ → JobState → Target → Exn → World → World
unfolding classify_dispatch_error retry_later fail_job note_failure
dispatch_failed e job_id original_score state backend error w =
    let d = classify_dispatch_error error in
    if is_worth_retry e state d
    then retry_later e job_id original_score state backend d w
    else fail_job e job_id (terminal_attempt e backend d) (note_failure state backend d w)

-- `_record_running`.
unfoldable pub record_running : Run → ℕ → Target → Text → World → World
record_running e job_id backend engine_job_id w =
    let row = w.rows job_id in
    if e.row_written
    then record w {
      rows =
          update job_id
            (record row {
              status = running;
              dispatched_at = some e.now;
              engine_job_id = some engine_job_id;
              backend_id = some backend.id;
            })
            w.rows;
    }
    else w

-- `_submit` and what `dispatch_job` does with what it raises.
unfoldable pub submit : Run → ℕ → ℕ → JobState → Target → Answer → World → World
unfolding dispatch_failed record_running set_running requeue_job
submit e job_id original_score state backend engine_full w = record w {
  store = requeue_job job_id original_score w.store;
}
submit e job_id original_score state backend (refused error) w =
    dispatch_failed e job_id original_score state backend error w
submit e job_id original_score state backend (accepted engine_job_id (some error)) w =
    dispatch_failed e job_id original_score state backend error w
submit e job_id original_score state backend (accepted engine_job_id none) w =
    record_running e job_id backend engine_job_id (record w {
      store =
          set_running job_id engine_job_id backend.url backend.id e.state_ttl e.next_poll w.store;
    })

abbrev pub unread_attempt : Run → Target → Exn → Attempt
unread_attempt e backend error =
    failed_dispatch_attempt backend.id none
      (codes "Failed to read image: " ++ describe_exception error) e.now

-- `dispatch_job`; `image` is what reading the job's image raised, if it did.
unfoldable pub dispatch_job :
    Run → ℕ → ℕ → Target → Domains → JobState → Option Exn → Answer → World → World
unfolding submit requeue_job fail_job
dispatch_job e job_id original_score backend domains state image answer w =
    if serves domains state.domain state.outputs
    then (elim image [
      | some error ↦ fail_job e job_id (unread_attempt e backend error) w
      | none ↦ submit e job_id original_score state backend answer w
    ])
    else record w { store = requeue_job job_id original_score w.store }
