-- ===== src/Poller/Plan.antt =====
-- What the poller does with the jobs it polled (app/workers/poller/steps.py).
use tuzka_as_a_service.Prelude.{
  ℕ, ◌+◌, ◌≤◌, ◌<◌, ◌≡◌, refl, Bool, true, false, ◌&&◌, Option, none, some, List, [], ◌∷◌, ltb,
  if◌then◌else◌, Text, arith, map, keep, All, or_else, length, ap,
}
use tuzka_as_a_service.Redis.State.{JobState, EngineRun}
use tuzka_as_a_service.Retry.{backoff, IsUniform, backoff-le}

pub data PollStatus : Type 0 where
  queued running done failed error unknown unreachable : PollStatus

pub data PollAction : Type 0 where
  harvest requeue fail keep_polling : PollAction

pub data FailureStage : Type 0 where
  dispatch poll engine harvest_stage timeout : FailureStage

pub record PollOutcome : Type 0 where
  pub job_id : ℕ
  pub status : PollStatus
  pub state : JobState
  pub run : EngineRun
  pub retryable : Bool
  pub http_status : Option ℕ
  pub error_text : Option Text
  pub stage : FailureStage

abbrev retry_or_fail : Bool → ℕ → ℕ → PollAction
retry_or_fail retryable requeues max_requeues =
    if retryable && ltb requeues max_requeues then requeue else fail

-- `classify_poll_result`.
unfoldable pub classify_poll_result : PollStatus → Bool → ℕ → ℕ → PollAction
classify_poll_result done retryable requeues max_requeues = harvest
classify_poll_result failed retryable requeues max_requeues =
    retry_or_fail retryable requeues max_requeues
classify_poll_result error retryable requeues max_requeues =
    retry_or_fail retryable requeues max_requeues
classify_poll_result unreachable retryable requeues max_requeues =
    retry_or_fail retryable requeues max_requeues
classify_poll_result _ retryable requeues max_requeues = keep_polling

-- An entry of `jobs.attempts`.
pub record Attempt : Type 0 where
  pub stage : FailureStage
  pub backend_id : Option ℕ
  pub http_status : Option ℕ
  pub error : Text
  pub retry : Bool
  pub at : ℕ

-- The fixed texts of a failure, as the program writes them.
pub data FailureText : Type 0 where
  unreachable_after : ℕ → FailureText
  reported : Text → FailureText
  engine_error : FailureText

-- `outcome.error or outcome.state.error or "Engine error"`: an empty text counts as none.
abbrev nonempty : Option Text → Option Text
nonempty none = none
nonempty (some []) = none
nonempty (some (c ∷ t)) = some (c ∷ t)

abbrev reported_or : Option Text → FailureText → FailureText
reported_or none later = later
reported_or (some t) later = reported t

abbrev is_unreachable : PollStatus → Bool
is_unreachable unreachable = true
is_unreachable _ = false

-- `poll_failure_message`.
unfoldable pub poll_failure_message : PollOutcome → ℕ → FailureText
poll_failure_message o max_requeues =
    if is_unreachable o.status
    then unreachable_after max_requeues
    else reported_or (nonempty o.error_text) (reported_or (nonempty o.state.error) engine_error)

pub record FailedPoll : Type 0 where
  pub outcome : PollOutcome
  pub error : FailureText
  pub attempt : Attempt

pub record RequeuedPoll : Type 0 where
  pub outcome : PollOutcome
  pub delay : ℕ
  pub attempt : Attempt

pub record PollPlan : Type 0 where
  pub done_polls : List PollOutcome
  pub failed_polls : List FailedPoll
  pub requeued_polls : List RequeuedPoll
  pub running_polls : List PollOutcome

module _ (status_text : PollStatus → Text) where
  -- `failed_poll_attempt`; without an error text it names the status.
  unfoldable pub failed_poll_attempt : PollOutcome → ℕ → Attempt
  failed_poll_attempt o now = record {
    stage = o.stage;
    backend_id = o.state.backend_id;
    http_status = o.http_status;
    error = or_else (nonempty o.error_text) (status_text o.status);
    retry = false;
    at = now;
  }

  -- `retried_poll_attempt`.
  unfoldable pub retried_poll_attempt : PollOutcome → ℕ → Attempt
  unfolding failed_poll_attempt
  retried_poll_attempt o now = record (failed_poll_attempt o now) { retry = true }

  abbrev pub action_of : ℕ → PollOutcome → PollAction
  action_of max_requeues o = classify_poll_result o.status o.retryable o.state.requeues max_requeues

  abbrev add_poll : PollAction → ℕ → ℕ → (ℕ → ℕ) → PollOutcome → PollPlan → PollPlan
  add_poll harvest max_requeues now uniform o p = record p { done_polls = o ∷ p.done_polls }
  add_poll fail max_requeues now uniform o p = record p {
    failed_polls =
        record {
          outcome = o;
          error = poll_failure_message o max_requeues;
          attempt = failed_poll_attempt o now;
        }
        ∷ p.failed_polls;
  }
  add_poll requeue max_requeues now uniform o p = record p {
    requeued_polls =
        record {
          outcome = o;
          delay = backoff uniform o.state.requeues;
          attempt = retried_poll_attempt o now;
        }
        ∷ p.requeued_polls;
  }
  add_poll keep_polling max_requeues now uniform o p = record p {
    running_polls = o ∷ p.running_polls;
  }

  -- `plan_polls`; `rng k` is the k-th draw of the random source after the ones before.
  unfoldable pub plan_polls : List PollOutcome → ℕ → ℕ → (ℕ → ℕ → ℕ) → ℕ → PollPlan
  plan_polls [] max_requeues now rng k = record {
    done_polls = [];
    failed_polls = [];
    requeued_polls = [];
    running_polls = [];
  }
  plan_polls (o ∷ statuses) max_requeues now rng k =
      add_poll (action_of max_requeues o) max_requeues now (rng k) o
        (plan_polls statuses max_requeues now rng (k + 1))

  abbrev is_harvest : PollAction → Bool
  is_harvest harvest = true
  is_harvest _ = false

  abbrev is_fail : PollAction → Bool
  is_fail fail = true
  is_fail _ = false

  abbrev is_requeue : PollAction → Bool
  is_requeue requeue = true
  is_requeue _ = false

  abbrev is_running : PollAction → Bool
  is_running keep_polling = true
  is_running _ = false

  -- A requeued job is retryable, within its budget, and waits at most half a minute.
  abbrev pub IsRequeueable : ℕ → RequeuedPoll → Type 0
  IsRequeueable max_requeues q =
      (q.outcome.retryable ≡ true)
      × (q.outcome.state.requeues < max_requeues)
      × (q.delay ≤ 30000)
      × (q.attempt.retry ≡ true)

  pub record IsSorted (statuses : List PollOutcome) (max_requeues : ℕ) (p : PollPlan) : Type 0 where
    pub done : p.done_polls ≡ keep (λ o. is_harvest (action_of max_requeues o)) statuses
    pub failed :
        map (λ q. q.outcome) p.failed_polls
        ≡ keep (λ o. is_fail (action_of max_requeues o)) statuses
    pub requeued :
        map (λ q. q.outcome) p.requeued_polls
        ≡ keep (λ o. is_requeue (action_of max_requeues o)) statuses
    pub running : p.running_polls ≡ keep (λ o. is_running (action_of max_requeues o)) statuses
    pub all_there :
        length p.done_polls
          + length p.failed_polls
          + length p.requeued_polls
          + length p.running_polls
        ≡ length statuses
    pub within_budget : All (IsRequeueable max_requeues) p.requeued_polls

  requeue_checked :
      (o : PollOutcome) (m now : ℕ) (uniform : ℕ → ℕ)
      → IsUniform uniform
      → action_of m o ≡ requeue
      → IsRequeueable m (record {
        outcome = o;
        delay = backoff uniform o.state.requeues;
        attempt = retried_poll_attempt o now;
      })
  unfolding classify_poll_result retried_poll_attempt
  requeue_checked o m now uniform u e =
      (ground arith, ground arith, backoff-le uniform o.state.requeues u, refl)

  add_poll-IsSorted :
      (o : PollOutcome) (statuses : List PollOutcome) (m now : ℕ) (uniform : ℕ → ℕ) (p : PollPlan)
      → IsUniform uniform
      → (a : PollAction) → action_of m o ≡ a
      → IsSorted statuses m p
      → IsSorted (o ∷ statuses) m (add_poll a m now uniform o p)
  add_poll-IsSorted o statuses m now uniform p u harvest e ih = record {
    done = rw e (ap (λ l. o ∷ l) ih.done);
    failed = rw e ih.failed;
    requeued = rw e ih.requeued;
    running = rw e ih.running;
    all_there = omega (arith, ih.all_there);
    within_budget = ih.within_budget;
  }
  add_poll-IsSorted o statuses m now uniform p u requeue e ih = record {
    done = rw e ih.done;
    failed = rw e ih.failed;
    requeued = rw e (ap (λ l. o ∷ l) ih.requeued);
    running = rw e ih.running;
    all_there = omega (arith, ih.all_there);
    within_budget = (requeue_checked o m now uniform u e, ih.within_budget);
  }
  add_poll-IsSorted o statuses m now uniform p u fail e ih = record {
    done = rw e ih.done;
    failed = rw e (ap (λ l. o ∷ l) ih.failed);
    requeued = rw e ih.requeued;
    running = rw e ih.running;
    all_there = omega (arith, ih.all_there);
    within_budget = ih.within_budget;
  }
  add_poll-IsSorted o statuses m now uniform p u keep_polling e ih = record {
    done = rw e ih.done;
    failed = rw e ih.failed;
    requeued = rw e ih.requeued;
    running = rw e (ap (λ l. o ∷ l) ih.running);
    all_there = omega (arith, ih.all_there);
    within_budget = ih.within_budget;
  }

  -- `plan_polls` sorts the outcomes by what `classify_poll_result` says of each, in order and
  -- without losing or repeating one; what it requeues is retryable, within its budget, and waits
  -- at most 30 s, for any random source that stays within its bound.
  pub plan_polls-IsSorted :
      (statuses : List PollOutcome) (max_requeues now : ℕ) (rng : ℕ → ℕ → ℕ) (k : ℕ)
      → ((i : ℕ) → IsUniform (rng i))
      → IsSorted statuses max_requeues (plan_polls statuses max_requeues now rng k)
  unfolding plan_polls
  plan_polls-IsSorted [] max_requeues now rng k u = record {
    done = refl;
    failed = refl;
    requeued = refl;
    running = refl;
    all_there = refl;
    within_budget = tt;
  }
  plan_polls-IsSorted (o ∷ statuses) max_requeues now rng k u =
      add_poll-IsSorted o statuses max_requeues now (rng k) _ (u k) (action_of max_requeues o) refl
        (plan_polls-IsSorted statuses max_requeues now rng (k + 1) u)
