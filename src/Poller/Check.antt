-- ===== src/Poller/Check.antt =====
-- One status check of a job: `check_one` of app/workers/poller/worker.py, with what it takes from
-- app/workers/poller/steps.py. What the engine answers is an argument; the description that an
-- exception carries stands for `describe_exception`.
use tuzka_as_a_service.Prelude.{
  ℕ, Bool, true, false, Option, none, some, [], Text, codes, ◌++◌, if◌then◌else◌,
}
use tuzka_as_a_service.Vocabulary.{EngineState, queued, running, done, failed, error, unknown}
use tuzka_as_a_service.Redis.State.{JobState, JobStatus, EngineRun}
use tuzka_as_a_service.Retry.{
  Exn, transport_error, http_status_error, other_error, http_status_of, is_retryable_poll_error,
  is_retryable_engine_failure,
}
use tuzka_as_a_service.Poller.Plan.{PollStatus, PollOutcome, poll, engine}

-- What an adapter's `status` yields: `run` holds its time stamps and metrics.
pub record EngineStatus : Type 0 where
  pub state : EngineState
  pub error_text : Option Text
  pub error_status : Option ℕ
  pub run : EngineRun

pub data StatusAnswer : Type 0 where
  answered : EngineStatus → StatusAnswer
  raised : Exn → StatusAnswer

-- What fetching a failed job's result yields.
pub data ProbeAnswer : Type 0 where
  no_error : ProbeAnswer
  probe_raised : Exn → ProbeAnswer

-- `probe_failure_status`.
unfoldable pub probe_failure_status : ProbeAnswer → Option ℕ
probe_failure_status no_error = none
probe_failure_status (probe_raised e) = http_status_of e

abbrev pub empty_run : EngineRun
empty_run = record { created_at = none; started_at = none; finished_at = none; metrics = [] }

-- `PollStatus(status_resp.state)`.
abbrev pub poll_status : EngineState → PollStatus
poll_status queued = PollStatus.queued
poll_status running = PollStatus.running
poll_status done = PollStatus.done
poll_status failed = PollStatus.failed
poll_status error = PollStatus.error
poll_status unknown = PollStatus.unknown

abbrev pub reports_failure : EngineState → Bool
reports_failure failed = true
reports_failure error = true
reports_failure _ = false

module _ (status_text : JobStatus → Text) where
  abbrev missing : Text → JobState → Exn
  missing name state = other_error (
      codes "job state has no "
      ++ name
      ++ codes " (status "
      ++ status_text state.status
      ++ codes ")")

  -- `adapter_for` and `require_engine_job_id`, which raise before the engine is asked.
  abbrev pub ask_engine : JobState → StatusAnswer → StatusAnswer
  ask_engine state answer = elim state.backend_url [
    | none ↦ raised (missing (codes "backend_url") state)
    | some url ↦ elim state.engine_job_id [
      | none ↦ raised (missing (codes "engine_job_id") state)
      | some engine_job_id ↦ answer
    ]
  ]

  abbrev failed_check : ℕ → JobState → Exn → PollOutcome
  failed_check job_id state (transport_error text) = record {
    job_id = job_id;
    status = PollStatus.unreachable;
    state = state;
    run = empty_run;
    retryable = true;
    http_status = none;
    error_text = some text;
    stage = poll;
  }
  failed_check job_id state (http_status_error code text) = record {
    job_id = job_id;
    status = PollStatus.error;
    state = state;
    run = empty_run;
    retryable = is_retryable_poll_error (http_status_error code text);
    http_status = some code;
    error_text = some text;
    stage = poll;
  }
  failed_check job_id state (other_error text) = record {
    job_id = job_id;
    status = PollStatus.error;
    state = state;
    run = empty_run;
    retryable = is_retryable_poll_error (other_error text);
    http_status = none;
    error_text = some text;
    stage = poll;
  }

  abbrev error_status_of : EngineStatus → ProbeAnswer → Option ℕ
  error_status_of s probe = elim s.error_status [
    | none ↦ probe_failure_status probe
    | some code ↦ some code
  ]

  abbrev checked : ℕ → JobState → EngineStatus → ProbeAnswer → PollOutcome
  checked job_id state s probe =
      if reports_failure s.state
      then record {
        job_id = job_id;
        status = poll_status s.state;
        state = state;
        run = s.run;
        retryable = is_retryable_engine_failure (error_status_of s probe);
        http_status = error_status_of s probe;
        error_text = s.error_text;
        stage = engine;
      }
      else record {
        job_id = job_id;
        status = poll_status s.state;
        state = state;
        run = s.run;
        retryable = false;
        http_status = none;
        error_text = none;
        stage = poll;
      }

  abbrev outcome_of : ℕ → JobState → ProbeAnswer → StatusAnswer → PollOutcome
  outcome_of job_id state probe (answered s) = checked job_id state s probe
  outcome_of job_id state probe (raised e) = failed_check job_id state e

  -- `check_one`.
  unfoldable pub check_one : ℕ → JobState → StatusAnswer → ProbeAnswer → PollOutcome
  unfolding probe_failure_status is_retryable_poll_error is_retryable_engine_failure
  check_one job_id state answer probe = outcome_of job_id state probe (ask_engine state answer)
