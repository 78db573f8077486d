-- ===== src/Redis/Steps.antt =====
-- The state functions as steps of one keyspace that the API, the workers and the reaper share.
use tuzka_as_a_service.Prelude.{
  ℕ, ◌≡◌, refl, true, false, Option, some, List, Text, member, update, arith,
}
use tuzka_as_a_service.Redis.State.{JobState, absent, whole, EngineRun, Store}
use tuzka_as_a_service.Redis.Queue.{
  schedule_retry, promote_due_retries, enqueue_jobs, QueueEntry, claim_pending, drop_pending,
  requeue_orphans, requeue_job,
}
use tuzka_as_a_service.Redis.Harvest.{
  reschedule_harvest, forget_harvests, count_requeue, schedule_next_poll,
}
use tuzka_as_a_service.Redis.Lifecycle.{
  set_running, release_done, set_done, set_failed, release_and_requeue,
}
use tuzka_as_a_service.Redis.Slots.{IsCounted}
use tuzka_as_a_service.Redis.Slots.Stay.{Stays, Stays-IsCounted}
use tuzka_as_a_service.Redis.Slots.Queues.{
  IsFresh, schedule_retry-Stays, promote_due_retries-Stays, claim_pending-Stays, drop_pending-Stays,
  requeue_orphans-Stays, requeue_job-Stays, enqueue_jobs-Stays, reschedule_harvest-Stays,
  forget_harvests-Stays, count_requeue-Stays, schedule_next_poll-Stays,
}
use tuzka_as_a_service.Redis.Slots.Release.{
  Agrees, Leaves-IsCounted, release_done-Leaves, set_done-Leaves, set_failed-Leaves,
  release_and_requeue-Leaves,
}
use tuzka_as_a_service.Redis.Slots.Enter.{set_running-IsCounted}

-- Any caller, at any time, with any arguments, but: a job in flight is not enqueued or dispatched
-- again, a dispatched job's hash is there, and a caller's snapshot names the stored slot.
-- `lapse` is the expiry of a hash, which outlives the time a job may be in flight.
pub data Step (r : Store) : Store → Type 0 where
  enqueue :
      (jobs : List (ℕ × JobState)) (ttl : ℕ) → IsFresh jobs r → Step r (enqueue_jobs jobs ttl r)
  promote : (now : ℕ) → Step r (promote_due_retries now r).0
  claim : (now : ℕ) (es : List QueueEntry) → Step r (claim_pending now es r).0
  drop_gone : (es : List QueueEntry) → Step r (drop_pending es r)
  orphans : (ids : List ℕ) (now grace : ℕ) → Step r (requeue_orphans ids now grace r).0
  requeue : (id score : ℕ) → Step r (requeue_job id score r)
  retry :
      (id score delay : ℕ) (avoid_id : Option ℕ) (now : ℕ)
      → Step r (schedule_retry id score delay avoid_id now r)
  run :
      (id : ℕ) (engine_id url : Text) (b ttl at : ℕ) (s : JobState)
      → r.jobs id ≡ whole s
      → member id r.inflight ≡ false
      → Step r (set_running id engine_id url b ttl at r)
  poll : (id at now : ℕ) → Step r (schedule_next_poll id at now r)
  release :
      (id : ℕ) (s : JobState) (run : Option EngineRun) (now : ℕ)
      → member id r.inflight ≡ true
      → Agrees s (r.jobs id)
      → Step r (release_done id s run now r).0
  finish :
      (id ttl : ℕ) (given : Option JobState) (now : ℕ)
      → ((s : JobState) → given ≡ some s → Agrees s (r.jobs id))
      → Step r (set_done id ttl given now r).0
  fail : (id : ℕ) (error : Text) (ttl now : ℕ) → Step r (set_failed id error ttl now r).0
  put_back :
      (id score ttl delay : ℕ) (avoid_id : Option ℕ) (now : ℕ)
      → Step r (release_and_requeue id score ttl delay avoid_id now r)
  count_retry : (id : ℕ) → Step r (count_requeue id r)
  harvest_later : (id delay now : ℕ) → Step r (reschedule_harvest id delay now r)
  forget : (ids : List ℕ) → Step r (forget_harvests ids r)
  lapse :
      (id : ℕ) → member id r.inflight ≡ false → Step r (record r { jobs = update id absent r.jobs })

pub data Reach (r : Store) : Store → Type 0 where
  here : Reach r r
  next : {s t : Store} → Reach r s → Step s t → Reach r t

-- What moves no job into or out of the in-flight set, and what takes one out.
ruleset quiet = (
  schedule_retry-Stays, promote_due_retries-Stays, claim_pending-Stays, drop_pending-Stays,
  requeue_orphans-Stays, requeue_job-Stays, enqueue_jobs-Stays, reschedule_harvest-Stays,
  forget_harvests-Stays, count_requeue-Stays, schedule_next_poll-Stays,
)

lapse-Stays :
    (id : ℕ) (r : Store)
    → member id r.inflight ≡ false
    → Stays r (record r { jobs = update id absent r.jobs })
lapse-Stays id r h = record {
  inflight = refl;
  slots = refl;
  loads = refl;
  pages = refl;
  same = λ j m. ground arith;
}

pub Step-IsCounted : (r t : Store) → Step r t → IsCounted r → IsCounted t
Step-IsCounted r t (enqueue jobs ttl f) c = Stays-IsCounted r t (search quiet) c
Step-IsCounted r t (promote now) c = Stays-IsCounted r t (search quiet) c
Step-IsCounted r t (claim now es) c = Stays-IsCounted r t (search quiet) c
Step-IsCounted r t (drop_gone es) c = Stays-IsCounted r t (search quiet) c
Step-IsCounted r t (orphans ids now grace) c = Stays-IsCounted r t (search quiet) c
Step-IsCounted r t (requeue id score) c = Stays-IsCounted r t (search quiet) c
Step-IsCounted r t (retry id score delay a now) c = Stays-IsCounted r t (search quiet) c
Step-IsCounted r t (run id engine url b ttl at s w f) c =
    set_running-IsCounted id engine url b ttl at r s w f c
Step-IsCounted r t (poll id at now) c = Stays-IsCounted r t (search quiet) c
Step-IsCounted r t (release id s engine_run now m a) c =
    Leaves-IsCounted id r t (release_done-Leaves id s engine_run now r m a) c
Step-IsCounted r t (finish id ttl given now a) c =
    Leaves-IsCounted id r t (set_done-Leaves id ttl given now r a) c
Step-IsCounted r t (fail id error ttl now) c =
    Leaves-IsCounted id r t (set_failed-Leaves id error ttl now r) c
Step-IsCounted r t (put_back id score ttl delay a now) c =
    Leaves-IsCounted id r t (release_and_requeue-Leaves id score ttl delay a now r) c
Step-IsCounted r t (count_retry id) c = Stays-IsCounted r t (search quiet) c
Step-IsCounted r t (harvest_later id delay now) c = Stays-IsCounted r t (search quiet) c
Step-IsCounted r t (forget ids) c = Stays-IsCounted r t (search quiet) c
Step-IsCounted r t (lapse id f) c = Stays-IsCounted r t (lapse-Stays id r f) c

-- From a keyspace whose counters agree with the in-flight set, every interleaving of the state
-- functions, of any number of workers, leaves them in agreement: each backend's in-flight count,
-- each field's in-flight load and each backend's page count of a batch are the number of in-flight
-- jobs that they stand for. The callers keep the conditions of `Step`: a job is dispatched only
-- while its hash is whole and it is not in flight, and enqueued only while it is not in flight;
-- `release_done` is called on a job in flight; a snapshot that it or `set_done` is given names
-- the stored backend, batch and load field; and the hash of a job in flight does not expire. A
-- duplicated dispatch, which leaves a counter off, is outside these conditions.
pub Reach-IsCounted : (r t : Store) → IsCounted r → Reach r t → IsCounted t
Reach-IsCounted r t c here = c
Reach-IsCounted r t c (next {s} reach st) = Step-IsCounted s t st (Reach-IsCounted r s c reach)
