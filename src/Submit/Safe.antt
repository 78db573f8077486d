-- ===== src/Submit/Safe.antt =====
-- What one dispatch does to its job whatever the engine answers (app/workers/submit/worker.py).
use tuzka_as_a_service.Prelude.{
  ℕ, ◌+◌, ◌≡◌, refl, Bool, true, false, ◌||◌, Option, none, some, Text, arith, member, if_either,
}
use tuzka_as_a_service.Retry.{Exn, backoff, counts_against_backend}
use tuzka_as_a_service.Redis.ZSet.{zhas, zscore-zadd}
use tuzka_as_a_service.Redis.State.{
  JobState, JobStatus, failed, Hash, absent, partial, whole, Store,
}
use tuzka_as_a_service.Redis.Queue.{requeue_job, schedule_retry}
use tuzka_as_a_service.Redis.Harvest.{count_requeue}
use tuzka_as_a_service.Redis.Lifecycle.{set_running, set_failed}
use tuzka_as_a_service.Poller.Plan.{Attempt}
use tuzka_as_a_service.Dispatch.Types.{Domains, serves}
use tuzka_as_a_service.Submit.{
  classify_dispatch_error, is_worth_retry, terminal_attempt, note_failure, unread_attempt, Run,
  Target, Answer, engine_full, refused, accepted, World, DispatchFailure, dispatch_job, submit,
  dispatch_failed, retry_later, fail_job, record_running,
}

abbrev is_failed : JobStatus → Bool
is_failed failed = true
is_failed _ = false

abbrev says_failed : Hash → Bool
says_failed absent = false
says_failed (partial m) = false
says_failed (whole s) = is_failed s.status

-- The job is running, queued at its priority, waiting for a retry, or failed.
abbrev pub is_kept : ℕ → ℕ → Store → Bool
is_kept id priority r =
    member id r.inflight
    || zhas id (r.pending priority)
    || zhas id r.delayed
    || says_failed (r.jobs id)

set_running_kept :
    (id : ℕ) (engine_id url : Text) (b ttl at priority : ℕ) (r : Store)
    → is_kept id priority (set_running id engine_id url b ttl at r) ≡ true
unfolding set_running
set_running_kept id engine_id url b ttl at priority r = ground arith

set_failed_kept :
    (id : ℕ) (error : Text) (ttl now priority : ℕ) (r : Store) (s : JobState)
    → r.jobs id ≡ whole s
    → is_kept id priority (set_failed id error ttl now r).0 ≡ true
unfolding set_failed
set_failed_kept id error ttl now priority r s h = ground arith

requeue_job_kept :
    (id score : ℕ) (r : Store) (s : JobState)
    → r.jobs id ≡ whole s
    → is_kept id s.priority (requeue_job id score r) ≡ true
unfolding requeue_job
requeue_job_kept id score r s h = ground (arith, zscore-zadd id score id (r.pending s.priority))

schedule_retry_kept :
    (id score delay : ℕ) (avoid_id : Option ℕ) (now priority : ℕ) (r : Store)
    → is_kept id priority (schedule_retry id score delay avoid_id now r) ≡ true
unfolding schedule_retry
schedule_retry_kept id score delay avoid_id now priority r =
    ground (arith, zscore-zadd id (now + delay) id r.delayed)

module _ (e : Run) (id score : ℕ) (state : JobState) (backend : Target) where
  retry_later_kept :
      (d : DispatchFailure) (priority : ℕ) (w : World)
      → is_kept id priority (retry_later e id score state backend d w).store ≡ true
  unfolding retry_later
  retry_later_kept d priority w =
      schedule_retry_kept id score (backoff e.uniform state.requeues) (some backend.id) e.now
        priority (count_requeue id w.store)

  fail_job_kept :
      (attempt : Attempt) (w : World) (s : JobState)
      → w.store.jobs id ≡ whole s
      → is_kept id s.priority (fail_job e id attempt w).store ≡ true
  unfolding fail_job
  fail_job_kept attempt w s h =
      set_failed_kept id attempt.error e.state_ttl e.now s.priority w.store s h

  note_failure-store :
      (d : DispatchFailure) (w : World) → (note_failure state backend d w).store ≡ w.store
  unfolding note_failure
  note_failure-store d w =
      if_either (λ (v : World). v.store ≡ w.store) (counts_against_backend d.http_status) _ _ refl
        refl

  dispatch_failed_kept :
      (error : Exn) (w : World) (s : JobState)
      → w.store.jobs id ≡ whole s
      → is_kept id s.priority (dispatch_failed e id score state backend error w).store ≡ true
  unfolding dispatch_failed
  dispatch_failed_kept error w s h =
      let d = classify_dispatch_error error in
      let v = note_failure state backend d w in
      if_either (λ (v : World). is_kept id s.priority v.store ≡ true) (is_worth_retry e state d) _ _
        (retry_later_kept d s.priority w)
        (fail_job_kept (terminal_attempt e backend d) v s (rw (note_failure-store d w) h))

  submit_kept :
      (answer : Answer) (w : World) (s : JobState)
      → w.store.jobs id ≡ whole s
      → is_kept id s.priority (submit e id score state backend answer w).store ≡ true
  unfolding submit record_running
  submit_kept engine_full w s h = requeue_job_kept id score w.store s h
  submit_kept (refused error) w s h = dispatch_failed_kept error w s h
  submit_kept (accepted engine_id (some error)) w s h = dispatch_failed_kept error w s h
  submit_kept (accepted engine_id none) w s h =
      let r =
        set_running_kept id engine_id backend.url backend.id e.state_ttl e.next_poll s.priority
          w.store in
      if_either (λ (v : World). is_kept id s.priority v.store ≡ true) e.row_written _ _ r r

-- A dispatch loses no job, whatever the image store and the engine do: a job whose hash is there
-- is afterwards in flight, on the pending queue of its priority, among the delayed retries, or
-- marked failed.
pub dispatch_job_kept :
    (e : Run) (id score : ℕ) (backend : Target) (domains : Domains) (state : JobState)
    (image : Option Exn) (answer : Answer) (w : World) (s : JobState)
    → w.store.jobs id ≡ whole s
    → is_kept id s.priority (dispatch_job e id score backend domains state image answer w).store
      ≡ true
unfolding dispatch_job
dispatch_job_kept e id score backend domains state (some error) answer w s h =
    if_either (λ (v : World). is_kept id s.priority v.store ≡ true)
      (serves domains state.domain state.outputs) _ _
      (fail_job_kept e id score state backend (unread_attempt e backend error) w s h)
      (requeue_job_kept id score w.store s h)
dispatch_job_kept e id score backend domains state none answer w s h =
    if_either (λ (v : World). is_kept id s.priority v.store ≡ true)
      (serves domains state.domain state.outputs) _ _
      (submit_kept e id score state backend answer w s h) (requeue_job_kept id score w.store s h)
