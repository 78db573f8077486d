-- ===== src/Submit/Budget.antt =====
-- The retry budget of a dispatch (app/workers/submit/worker.py).
use tuzka_as_a_service.Prelude.{
  ℕ, ◌+◌, ◌≤◌, ◌<◌, ◌≡◌, Option, none, some, Text, arith, Bool-cases, inl, inr, if_either, ◌⊎◌,
  false,
}
use tuzka_as_a_service.Retry.{Exn, backoff, counts_against_backend}
use tuzka_as_a_service.Redis.State.{JobState, Hash, absent, partial, whole, Store}
use tuzka_as_a_service.Redis.Queue.{requeue_job, schedule_retry, add_pending}
use tuzka_as_a_service.Redis.Harvest.{count_requeue}
use tuzka_as_a_service.Redis.Lifecycle.{set_running, set_failed}
use tuzka_as_a_service.Poller.Plan.{Attempt}
use tuzka_as_a_service.Dispatch.Types.{Domains, serves}
use tuzka_as_a_service.Submit.{
  classify_dispatch_error, is_worth_retry, terminal_attempt, note_failure, unread_attempt, Run,
  Target, Answer, engine_full, refused, accepted, World, DispatchFailure, dispatch_job, submit,
  dispatch_failed, retry_later, fail_job, record_running,
}

abbrev requeues_of : Hash → Option ℕ
requeues_of absent = none
requeues_of (partial m) = none
requeues_of (whole s) = some s.requeues

-- The hash and the row agree on the job's retries, which are at most the limit.
abbrev pub IsInBudget : ℕ → ℕ → World → Type 0
IsInBudget limit id w =
    (requeues_of (w.store.jobs id) ≡ some (w.rows id).requeues) × ((w.rows id).requeues ≤ limit)

-- After a dispatch: the hash and the row agree, or the database lost the row of a retry, which only
-- the hash counts.
abbrev pub IsInBudgetAfter : Run → ℕ → ℕ → World → Type 0
IsInBudgetAfter e limit id w =
    IsInBudget limit id w
    ⊎ ((e.outcome_written ≡ false)
        × (requeues_of (w.store.jobs id) ≡ some ((w.rows id).requeues + 1))
        × ((w.rows id).requeues < limit))

set_failed_requeues :
    (id : ℕ) (error : Text) (ttl now : ℕ) (r : Store)
    → requeues_of ((set_failed id error ttl now r).0.jobs id) ≡ requeues_of (r.jobs id)
unfolding set_failed
set_failed_requeues id error ttl now r = ground arith

set_running_requeues :
    (id : ℕ) (engine_id url : Text) (b ttl at : ℕ) (r : Store)
    → requeues_of ((set_running id engine_id url b ttl at r).jobs id) ≡ requeues_of (r.jobs id)
unfolding set_running
set_running_requeues id engine_id url b ttl at r = ground arith

retry_requeues :
    (id score delay : ℕ) (avoid_id : Option ℕ) (now k : ℕ) (r : Store)
    → requeues_of (r.jobs id) ≡ some k
    → requeues_of ((schedule_retry id score delay avoid_id now (count_requeue id r)).jobs id)
      ≡ some (k + 1)
unfolding schedule_retry count_requeue
retry_requeues id score delay avoid_id now k r h = ground arith

module _ (e : Run) (id score : ℕ) (state : JobState) (backend : Target) (limit : ℕ) where
  note_failure-IsInBudget :
      (d : DispatchFailure) (w : World)
      → IsInBudget limit id w
      → IsInBudget limit id (note_failure state backend d w)
  unfolding note_failure
  note_failure-IsInBudget d w h =
      if_either (IsInBudget limit id) (counts_against_backend d.http_status) _ _ h h

  fail_job-IsInBudget :
      (attempt : Attempt) (w : World)
      → IsInBudget limit id w
      → IsInBudget limit id (fail_job e id attempt w)
  unfolding fail_job
  fail_job-IsInBudget attempt w h =
      ground (arith, set_failed_requeues id attempt.error e.state_ttl e.now w.store)

  retry_later-IsInBudget :
      (d : DispatchFailure) (w : World)
      → IsInBudget limit id w
      → (w.rows id).requeues < limit
      → IsInBudgetAfter e limit id (retry_later e id score state backend d w)
  unfolding retry_later
  retry_later-IsInBudget d w h k =
      let n =
        retry_requeues id score (backoff e.uniform state.requeues) (some backend.id) e.now
          (w.rows id).requeues w.store h.0 in
      elim (Bool-cases e.outcome_written) [
        | inl c ↦ rw c (inl (ground (arith, n), ground arith))
        | inr c ↦ inr (c, rw c n, rw c k)
      ]

  module _ (within : e.max_requeues ≤ limit) where
    dispatch_failed-IsInBudget :
        (error : Exn) (w : World)
        → state.requeues ≡ (w.rows id).requeues
        → IsInBudget limit id w
        → IsInBudgetAfter e limit id (dispatch_failed e id score state backend error w)
    unfolding dispatch_failed
    dispatch_failed-IsInBudget error w q h =
        let d = classify_dispatch_error error in
        let v = note_failure state backend d w in
        elim (Bool-cases (is_worth_retry e state d)) [
          | inl c ↦ rw c (retry_later-IsInBudget d w h (ground arith))
          | inr c ↦ rw c (
              inl (
                fail_job-IsInBudget (terminal_attempt e backend d) v
                  (note_failure-IsInBudget d w h)))
        ]

    submit-IsInBudget :
        (answer : Answer) (w : World)
        → state.requeues ≡ (w.rows id).requeues
        → IsInBudget limit id w
        → IsInBudgetAfter e limit id (submit e id score state backend answer w)
    unfolding submit requeue_job add_pending record_running
    submit-IsInBudget engine_full w q h = inl h
    submit-IsInBudget (refused error) w q h = dispatch_failed-IsInBudget error w q h
    submit-IsInBudget (accepted engine_id (some error)) w q h =
        dispatch_failed-IsInBudget error w q h
    submit-IsInBudget (accepted engine_id none) w q h = inl (
        ground (
          arith,
          set_running_requeues id engine_id backend.url backend.id e.state_ttl e.next_poll w.store,
        ))

-- The retry budget: a dispatch of a job whose state it has just read keeps the job's retries equal
-- in its hash and its row, and at most any limit that they kept before and `max_requeues` keeps. Only
-- when the database fails to write the row of a retry does the hash count one more than the row, and
-- then too the hash is within the limit.
pub dispatch_job-IsInBudget :
    (e : Run) (id score : ℕ) (backend : Target) (domains : Domains) (state : JobState)
    (image : Option Exn) (answer : Answer) (w : World) (limit : ℕ)
    → e.max_requeues ≤ limit
    → state.requeues ≡ (w.rows id).requeues
    → IsInBudget limit id w
    → IsInBudgetAfter e limit id (dispatch_job e id score backend domains state image answer w)
unfolding dispatch_job requeue_job add_pending
dispatch_job-IsInBudget e id score backend domains state (some error) answer w limit l q h =
    if_either (IsInBudgetAfter e limit id) (serves domains state.domain state.outputs) _ _
      (inl
        (fail_job-IsInBudget e id score state backend limit (unread_attempt e backend error) w h))
      (inl h)
dispatch_job-IsInBudget e id score backend domains state none answer w limit l q h =
    if_either (IsInBudgetAfter e limit id) (serves domains state.domain state.outputs) _ _
      (submit-IsInBudget e id score state backend limit l answer w q h) (inl h)
