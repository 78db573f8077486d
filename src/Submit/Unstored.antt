-- ===== src/Submit/Unstored.antt =====
-- The storage budget of a tick (app/workers/submit/worker.py): how many jobs are in flight or wait for
-- their harvest.
use tuzka_as_a_service.Prelude.{
  ℕ, suc, ◌+◌, ◌≤◌, ◌≡◌, refl, Option, none, some, List, [], ◌∷◌, Text, arith, srem, length,
  if_either, ◌∙◌,
}
use tuzka_as_a_service.Retry.{Exn, backoff, counts_against_backend}
use tuzka_as_a_service.Redis.ZSet.{ZSet, zrem, zuntil}
use tuzka_as_a_service.Redis.State.{JobState, Store}
use tuzka_as_a_service.Redis.Queue.{
  QueueEntry, requeue_job, schedule_retry, promote_due_retries, promote_loop, promote_one,
  add_pending, claim_pending, claim_one, drop_pending,
}
use tuzka_as_a_service.Redis.Harvest.{count_requeue}
use tuzka_as_a_service.Redis.Lifecycle.{set_running, set_failed}
use tuzka_as_a_service.Poller.Plan.{Attempt}
use tuzka_as_a_service.Dispatch.Types.{Domains, serves}
use tuzka_as_a_service.Submit.{
  classify_dispatch_error, is_worth_retry, terminal_attempt, note_failure, unread_attempt, Run,
  Target, Answer, engine_full, refused, accepted, World, DispatchFailure, dispatch_job, submit,
  dispatch_failed, retry_later, fail_job, record_running,
}

-- The jobs that hold a slot and those that wait for their harvest.
abbrev pub unstored : Store → ℕ
unstored r = length r.inflight + length r.pending_harvest

length-srem : (a : ℕ) (xs : List ℕ) → length (srem a xs) ≤ length xs
length-srem a [] = omega arith
length-srem a (x ∷ xs) = ground (arith, length-srem a xs)

length-zrem : (a : ℕ) (z : ZSet) → length (zrem a z) ≤ length z
length-zrem a [] = omega arith
length-zrem a ((x, score) ∷ z) = ground (arith, length-zrem a z)

unstored-set_running :
    (id : ℕ) (engine_id url : Text) (b ttl at : ℕ) (r : Store)
    → unstored (set_running id engine_id url b ttl at r) ≤ suc (unstored r)
unfolding set_running
unstored-set_running id engine_id url b ttl at r = ground arith

unstored-set_failed :
    (id : ℕ) (error : Text) (ttl now : ℕ) (r : Store)
    → unstored (set_failed id error ttl now r).0 ≤ unstored r
unfolding set_failed
unstored-set_failed id error ttl now r =
    ground (arith, length-srem id r.inflight, length-zrem id r.pending_harvest)

unstored-requeue_job : (id score : ℕ) (r : Store) → unstored (requeue_job id score r) ≡ unstored r
unfolding requeue_job add_pending
unstored-requeue_job id score r = ground arith

unstored-schedule_retry :
    (id score delay : ℕ) (avoid_id : Option ℕ) (now : ℕ) (r : Store)
    → unstored (schedule_retry id score delay avoid_id now r) ≡ unstored r
unfolding schedule_retry
unstored-schedule_retry id score delay avoid_id now r = refl

-- At most one more unstored job than before.
abbrev pub GrowsByOne : World → World → Type 0
GrowsByOne w v = unstored v.store ≤ suc (unstored w.store)

module _ (e : Run) (id score : ℕ) (state : JobState) (backend : Target) where
  note_failure-GrowsByOne :
      (d : DispatchFailure) (w : World)
      → unstored (note_failure state backend d w).store ≡ unstored w.store
  unfolding note_failure
  note_failure-GrowsByOne d w =
      if_either (λ (v : World). unstored v.store ≡ unstored w.store)
        (counts_against_backend d.http_status) _ _ refl refl

  fail_job-GrowsByOne : (attempt : Attempt) (w : World) → GrowsByOne w (fail_job e id attempt w)
  unfolding fail_job
  fail_job-GrowsByOne attempt w =
      omega (arith, unstored-set_failed id attempt.error e.state_ttl e.now w.store)

  dispatch_failed-GrowsByOne :
      (error : Exn) (w : World) → GrowsByOne w (dispatch_failed e id score state backend error w)
  unfolding dispatch_failed retry_later count_requeue
  dispatch_failed-GrowsByOne error w =
      let d = classify_dispatch_error error in
      let v = note_failure state backend d w in
      if_either (GrowsByOne w) (is_worth_retry e state d) _ _
        (omega (
          arith,
          unstored-schedule_retry id score (backoff e.uniform state.requeues) (some backend.id)
              e.now (count_requeue id w.store),
        ))
        (omega (
          arith,
          fail_job-GrowsByOne (terminal_attempt e backend d) v,
          note_failure-GrowsByOne d w,
        ))

  submit-GrowsByOne :
      (answer : Answer) (w : World) → GrowsByOne w (submit e id score state backend answer w)
  unfolding submit record_running
  submit-GrowsByOne engine_full w = omega (arith, unstored-requeue_job id score w.store)
  submit-GrowsByOne (refused error) w = dispatch_failed-GrowsByOne error w
  submit-GrowsByOne (accepted engine_id (some error)) w = dispatch_failed-GrowsByOne error w
  submit-GrowsByOne (accepted engine_id none) w =
      let h =
        unstored-set_running id engine_id backend.url backend.id e.state_ttl e.next_poll w.store in
      if_either (GrowsByOne w) e.row_written _ _ h h

pub dispatch_job-GrowsByOne :
    (e : Run) (id score : ℕ) (backend : Target) (domains : Domains) (state : JobState)
    (image : Option Exn) (answer : Answer) (w : World)
    → GrowsByOne w (dispatch_job e id score backend domains state image answer w)
unfolding dispatch_job
dispatch_job-GrowsByOne e id score backend domains state (some error) answer w =
    if_either (GrowsByOne w) (serves domains state.domain state.outputs) _ _
      (fail_job-GrowsByOne e id score state backend (unread_attempt e backend error) w)
      (omega (arith, unstored-requeue_job id score w.store))
dispatch_job-GrowsByOne e id score backend domains state none answer w =
    if_either (GrowsByOne w) (serves domains state.domain state.outputs) _ _
      (submit-GrowsByOne e id score state backend answer w)
      (omega (arith, unstored-requeue_job id score w.store))

unstored-promote_one :
    (now id : ℕ) (acc : Store × ℕ) → unstored (promote_one now id acc).0 ≡ unstored acc.0
unfolding promote_one add_pending
unstored-promote_one now id acc = ground arith

unstored-promote_loop :
    (now : ℕ) (z : ZSet) (acc : Store × ℕ) → unstored (promote_loop now z acc).0 ≡ unstored acc.0
unfolding promote_loop
unstored-promote_loop now [] acc = refl
unstored-promote_loop now ((id, score) ∷ z) acc =
    unstored-promote_loop now z (promote_one now id acc) ∙ unstored-promote_one now id acc

pub promote_unstored : (now : ℕ) (r : Store) → unstored (promote_due_retries now r).0 ≡ unstored r
unfolding promote_due_retries
promote_unstored now r = unstored-promote_loop now (zuntil now r.delayed) (r, 0)

pub unstored-drop_pending :
    (entries : List QueueEntry) (r : Store) → unstored (drop_pending entries r) ≡ unstored r
unfolding drop_pending
unstored-drop_pending [] r = refl
unstored-drop_pending (q ∷ entries) r = unstored-drop_pending entries _

unstored-claim_one :
    (now : ℕ) (q : QueueEntry) (r : Store) → unstored (claim_one now q r).0 ≡ unstored r
unfolding claim_one
unstored-claim_one now q r = ground arith

pub unstored-claim_pending :
    (now : ℕ) (entries : List QueueEntry) (r : Store)
    → unstored (claim_pending now entries r).0 ≡ unstored r
unfolding claim_pending
unstored-claim_pending now [] r = refl
unstored-claim_pending now (q ∷ entries) r =
    unstored-claim_pending now entries (claim_one now q r).0 ∙ unstored-claim_one now q r
