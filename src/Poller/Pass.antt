-- ===== src/Poller/Pass.antt =====
-- What a pass of the poller does with the checks that finished and the harvests that are due:
-- `process_chunk`, `_harvest_due` and what they call in app/workers/poller/worker.py. The jobs of a
-- gather are taken one after another; events and the tracing are left out.
use tuzka_as_a_service.Prelude.{
  ℕ, ◌+◌, ◌-◌, ◌*◌, Bool, true, false, Option, none, some, List, [], ◌∷◌, ◌++◌, Text, if◌then◌else◌,
  leb, keep, length, max, min,
}
use tuzka_as_a_service.Redis.State.{JobState, queued, running, storing, Store, get_job, signal_poll}
use tuzka_as_a_service.Redis.Harvest.{
  due_harvest_ids, next_harvest_at, forget_harvests, count_requeue, schedule_next_poll,
}
use tuzka_as_a_service.Redis.Lifecycle.{release_done, release_and_requeue}
use tuzka_as_a_service.Poller.Plan.{
  PollStatus, PollOutcome, FailureText, FailedPoll, RequeuedPoll, PollPlan, plan_polls,
}
use tuzka_as_a_service.Poller.Timing.{next_poll_delay, next_poll_timeout}
use tuzka_as_a_service.Poller.Rows.{PolledRow, PollWorld, update_row}
use tuzka_as_a_service.Poller.Harvest.{
  Surroundings, HarvestAnswer, status_read, mark_failed, harvest,
}

pub record PollSettings : Type 0 where
  pub poll_backoff_initial : ℕ
  pub poll_backoff_max : ℕ
  pub harvest_concurrency : ℕ
  pub tick : ℕ
  pub max_requeues : ℕ

-- `gather` of `release_done`, and the ids that it released.
unfoldable pub release_all : ℕ → List PollOutcome → Store → Store × List ℕ
unfolding release_done
release_all now [] r = (r, [])
release_all now (o ∷ done) r =
    let (r1, released) = release_done o.job_id o.state (some o.run) now r in
    let (r2, ids) = release_all now done r1 in (r2, if released then o.job_id ∷ ids else ids)

abbrev store_if_running : PolledRow → PolledRow
store_if_running row = elim row.status [ running ↦ record row { status = storing } | _ ↦ row ]

abbrev pub update_rows :
    List ℕ → (PolledRow → PolledRow) → (ℕ → Option PolledRow) → ℕ → Option PolledRow
update_rows [] f rows = rows
update_rows (id ∷ ids) f rows = update_rows ids f (update_row id f rows)

-- `_release_for_harvest`.
unfoldable pub release_for_harvest : ℕ → List PollOutcome → PollWorld → PollWorld
unfolding release_all
release_for_harvest now done w =
    let (r, storing_ids) = release_all now done w.store in
    record w { store = r; rows = update_rows storing_ids store_if_running w.rows }

-- `_schedule_next_poll` of each job that still runs.
unfoldable pub schedule_polls : PollSettings → ℕ → List PollOutcome → PollWorld → PollWorld
unfolding schedule_next_poll next_poll_delay
schedule_polls c now [] w = w
schedule_polls c now (o ∷ rest) w =
    let delay =
      next_poll_delay o.state.next_poll_at o.state.last_poll now c.poll_backoff_initial
        c.poll_backoff_max in
    schedule_polls c now rest
      (record w { store = schedule_next_poll o.job_id (now + delay) now w.store })

-- `_fail_polled` of each job, whose transactions are committed; `failure_text` writes a failure out.
unfoldable pub fail_polls :
    Surroundings → (FailureText → Text) → List FailedPoll → PollWorld → PollWorld
unfolding mark_failed
fail_polls e failure_text [] w = w
fail_polls e failure_text (f ∷ rest) w = fail_polls e failure_text rest (
    mark_failed (status_read true) e f.outcome.job_id f.outcome.state (failure_text f.error)
      (some f.attempt) (some f.outcome.run) w)

abbrev blame_backend : Option ℕ → Text → List (ℕ × Text) → List (ℕ × Text)
blame_backend none domain failures = failures
blame_backend (some b) domain failures = (b, domain) ∷ failures

-- `_requeue_in_redis`.
unfoldable pub requeue_in_redis : Surroundings → RequeuedPoll → PollWorld → PollWorld
unfolding release_and_requeue count_requeue
requeue_in_redis e q w =
    let s = q.outcome.state in
    record w {
      store = count_requeue q.outcome.job_id (
          release_and_requeue q.outcome.job_id s.submitted_at e.state_ttl q.delay s.backend_id e.now
            w.store);
      failures = blame_backend s.backend_id s.domain w.failures;
    }

unfoldable pub requeue_all : Surroundings → List RequeuedPoll → PollWorld → PollWorld
unfolding requeue_in_redis
requeue_all e [] w = w
requeue_all e (q ∷ rest) w = requeue_all e rest (requeue_in_redis e q w)

-- The row of a requeued job.
abbrev pub requeued_row : RequeuedPoll → PolledRow → PolledRow
requeued_row q row = record row {
  status = queued;
  engine_job_id = none;
  backend_id = none;
  dispatched_at = none;
  requeues = row.requeues + 1;
  attempts = row.attempts ++ (q.attempt ∷ []);
}

unfoldable pub requeue_rows : List RequeuedPoll → (ℕ → Option PolledRow) → ℕ → Option PolledRow
requeue_rows [] rows = rows
requeue_rows (q ∷ rest) rows = requeue_rows rest (update_row q.outcome.job_id (requeued_row q) rows)

-- `_requeue`: Redis first, then the rows.
unfoldable pub requeue_polls : Surroundings → List RequeuedPoll → PollWorld → PollWorld
unfolding requeue_all requeue_rows
requeue_polls e requeued w =
    let w1 = requeue_all e requeued w in record w1 { rows = requeue_rows requeued w1.rows }

abbrev pub signal_if_done : List PollOutcome → PollWorld → PollWorld
signal_if_done [] w = w
signal_if_done (o ∷ done) w = record w { store = signal_poll w.store }

module _ (status_text : PollStatus → Text) (failure_text : FailureText → Text) where
  -- `process_chunk` with its plan.
  unfoldable pub carry_out : PollSettings → Surroundings → PollPlan → PollWorld → PollWorld
  unfolding release_for_harvest schedule_polls fail_polls requeue_polls
  carry_out c e p w = signal_if_done p.done_polls (
      requeue_polls e p.requeued_polls (
        fail_polls e failure_text p.failed_polls
          (schedule_polls c e.now p.running_polls (release_for_harvest e.now p.done_polls w))))

  -- `process_chunk`: the world after it, and `released_since_harvest`.
  unfoldable pub process_chunk :
      PollSettings → Surroundings → (ℕ → ℕ → ℕ) → List PollOutcome → ℕ → PollWorld → PollWorld × ℕ
  unfolding plan_polls carry_out
  process_chunk c e rng statuses released w =
      let p = plan_polls status_text statuses c.max_requeues e.now rng 0 in
      (carry_out c e p w, released + length p.done_polls)

abbrev pub is_missing : Store → ℕ → Bool
is_missing r id = elim (get_job r id) [ none ↦ true | some s ↦ false ]

abbrev pub harvest_found :
    Surroundings → ℕ → Option JobState → HarvestAnswer → PollWorld → PollWorld
harvest_found e id none answer w = w
harvest_found e id (some s) answer w = harvest e id s none answer w

-- The harvests of a pass, with the states read before the first of them.
unfoldable pub harvest_all :
    Surroundings → Store → (ℕ → HarvestAnswer) → List ℕ → PollWorld → PollWorld
unfolding harvest
harvest_all e read answers [] w = w
harvest_all e read answers (id ∷ ids) w =
    harvest_all e read answers ids (harvest_found e id (get_job read id) (answers id) w)

-- `_harvest_due`: the world after it; `released_since_harvest` is 0 then.
unfoldable pub harvest_due :
    PollSettings → Surroundings → ℕ → (ℕ → HarvestAnswer) → PollWorld → PollWorld
unfolding due_harvest_ids forget_harvests harvest_all
harvest_due c e released answers w =
    let ids = due_harvest_ids (max (c.harvest_concurrency * 2) released) e.now w.store in
    harvest_all e w.store answers ids
      (record w { store = forget_harvests (keep (is_missing w.store) ids) w.store })

abbrev or_zero : Option ℕ → ℕ
or_zero none = 0
or_zero (some t) = t

abbrev due_now : ℕ → JobState → Bool
due_now now s = leb (or_zero s.next_poll_at) now

-- `_inflight_states` and `_start_polls`: the jobs to check now, and the deadlines of the others.
unfoldable pub start_polls : ℕ → List ℕ → Store → List (ℕ × JobState) × List ℕ
start_polls now [] r = ([], [])
start_polls now (id ∷ ids) r =
    let (due, deadlines) = start_polls now ids r in
    elim (get_job r id) [
      | none ↦ (due, deadlines)
      | some s ↦
          if due_now now s
          then ((id, s) ∷ due, deadlines)
          else (due, or_zero s.next_poll_at ∷ deadlines)
    ]

-- `_wait_timeout`.
unfoldable pub wait_timeout : PollSettings → ℕ → List ℕ → Store → ℕ
unfolding next_poll_timeout next_harvest_at
wait_timeout c now deadlines r =
    let wait = next_poll_timeout deadlines now c.tick in
    elim (next_harvest_at r) [ none ↦ wait | some at ↦ min wait (at - now) ]
