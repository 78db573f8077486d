-- ===== src/Redis/Slots/Queues.antt =====
-- The queue operations of app/services/redis_jobs.py and the counters.
use tuzka_as_a_service.Prelude.{
  ℕ, ◌≡◌, refl, false, Option, List, [], ◌∷◌, arith, ◌==◌, member, Bool-cases, inl, inr,
}
use tuzka_as_a_service.Redis.ZSet.{ZSet, zuntil}
use tuzka_as_a_service.Redis.State.{JobState, Store}
use tuzka_as_a_service.Redis.Queue.{
  add_pending, schedule_retry, promote_one, promote_loop, promote_due_retries, enqueue_one,
  enqueue_loop, enqueue_jobs, QueueEntry, claim_one, claim_pending, drop_pending, requeue_orphan,
  orphan_loop, requeue_orphans, requeue_job, signal_if_any,
}
use tuzka_as_a_service.Redis.Harvest.{
  reschedule_harvest, forget_harvests, count_requeue, schedule_next_poll,
}
use tuzka_as_a_service.Redis.Slots.Stay.{Stays, Stays-refl, Stays-trans}

pub schedule_retry-Stays :
    (id score delay : ℕ) (avoid_id : Option ℕ) (now : ℕ) (r : Store)
    → Stays r (schedule_retry id score delay avoid_id now r)
unfolding schedule_retry
schedule_retry-Stays id score delay avoid_id now r = record {
  inflight = refl;
  slots = refl;
  loads = refl;
  pages = refl;
  same = λ j m. ground arith;
}

pub add_pending-Stays : (p id score : ℕ) (r : Store) → Stays r (add_pending p id score r)
unfolding add_pending
add_pending-Stays p id score r = record {
  inflight = refl;
  slots = refl;
  loads = refl;
  pages = refl;
  same = λ j m. refl;
}

promote_one-Stays : (now id : ℕ) (r : Store) (n : ℕ) → Stays r (promote_one now id (r, n)).0
unfolding promote_one
promote_one-Stays now id r n = record {
  inflight = ground arith;
  slots = ground arith;
  loads = ground arith;
  pages = ground arith;
  same = λ j m. ground arith;
}

promote_loop-Stays :
    (now : ℕ) (z : ZSet) (r : Store) (n : ℕ) → Stays r (promote_loop now z (r, n)).0
unfolding promote_loop
promote_loop-Stays now [] r n = Stays-refl r
promote_loop-Stays now ((id, score) ∷ z) r n =
    let (t, k) = promote_one now id (r, n) in
    Stays-trans r t _ (promote_one-Stays now id r n) (promote_loop-Stays now z t k)

pub promote_due_retries-Stays : (now : ℕ) (r : Store) → Stays r (promote_due_retries now r).0
unfolding promote_due_retries
promote_due_retries-Stays now r = promote_loop-Stays now (zuntil now r.delayed) r 0

claim_one-Stays : (now : ℕ) (e : QueueEntry) (r : Store) → Stays r (claim_one now e r).0
unfolding claim_one
claim_one-Stays now e r = record {
  inflight = ground arith;
  slots = ground arith;
  loads = ground arith;
  pages = ground arith;
  same = λ j m. ground arith;
}

pub claim_pending-Stays :
    (now : ℕ) (es : List QueueEntry) (r : Store) → Stays r (claim_pending now es r).0
unfolding claim_pending
claim_pending-Stays now [] r = Stays-refl r
claim_pending-Stays now (e ∷ es) r =
    Stays-trans r (claim_one now e r).0 _ (claim_one-Stays now e r)
      (claim_pending-Stays now es (claim_one now e r).0)

pub drop_pending-Stays : (es : List QueueEntry) (r : Store) → Stays r (drop_pending es r)
unfolding drop_pending
drop_pending-Stays [] r = Stays-refl r
drop_pending-Stays (e ∷ es) r =
    Stays-trans r _ _
      (record { inflight = refl; slots = refl; loads = refl; pages = refl; same = λ j m. refl })
      (drop_pending-Stays es _)

requeue_orphan-Stays : (id now grace : ℕ) (r : Store) → Stays r (requeue_orphan id now grace r).0
unfolding requeue_orphan
requeue_orphan-Stays id now grace r = record {
  inflight = ground arith;
  slots = ground arith;
  loads = ground arith;
  pages = ground arith;
  same = λ j m. ground arith;
}

orphan_loop-Stays :
    (ids : List ℕ) (now grace : ℕ) (r : Store) → Stays r (orphan_loop ids now grace r).0
unfolding orphan_loop
orphan_loop-Stays [] now grace r = Stays-refl r
orphan_loop-Stays (id ∷ ids) now grace r =
    Stays-trans r (requeue_orphan id now grace r).0 _ (requeue_orphan-Stays id now grace r)
      (orphan_loop-Stays ids now grace (requeue_orphan id now grace r).0)

signal-Stays : (ids : List ℕ) (r : Store) → Stays r (signal_if_any ids r)
signal-Stays [] r = Stays-refl r
signal-Stays (id ∷ ids) r = record {
  inflight = refl;
  slots = refl;
  loads = refl;
  pages = refl;
  same = λ j m. refl;
}

pub requeue_orphans-Stays :
    (ids : List ℕ) (now grace : ℕ) (r : Store) → Stays r (requeue_orphans ids now grace r).0
unfolding requeue_orphans
requeue_orphans-Stays ids now grace r =
    Stays-trans r (orphan_loop ids now grace r).0 _ (orphan_loop-Stays ids now grace r)
      (signal-Stays _ _)

pub requeue_job-Stays : (id score : ℕ) (r : Store) → Stays r (requeue_job id score r)
unfolding requeue_job
requeue_job-Stays id score r = record {
  inflight = refl;
  slots = refl;
  loads = refl;
  pages = refl;
  same = λ j m. refl;
}

-- Jobs that are not in flight are enqueued; an in-flight job's hash is not written.
abbrev pub IsFresh : List (ℕ × JobState) → Store → Type 0
IsFresh [] r = Unit
IsFresh ((id, s) ∷ jobs) r = (member id r.inflight ≡ false) × IsFresh jobs r

enqueue_one-Stays :
    (id : ℕ) (s : JobState) (ttl : ℕ) (r : Store)
    → member id r.inflight ≡ false
    → Stays r (enqueue_one id s ttl r)
unfolding enqueue_one
enqueue_one-Stays id s ttl r h = record {
  inflight = refl;
  slots = refl;
  loads = refl;
  pages = refl;
  same =
      λ j m. elim (Bool-cases (id == j)) [ inl e ↦ absurd (ground (arith, e)) | inr e ↦ rw e refl ];
}

enqueue_loop-Stays :
    (jobs : List (ℕ × JobState)) (ttl : ℕ) (r : Store)
    → IsFresh jobs r
    → Stays r (enqueue_loop jobs ttl r)
unfolding enqueue_loop
enqueue_loop-Stays [] ttl r h = Stays-refl r
enqueue_loop-Stays ((id, s) ∷ jobs) ttl r h =
    Stays-trans r (enqueue_one id s ttl r) _ (enqueue_one-Stays id s ttl r h.0)
      (enqueue_loop-Stays jobs ttl (enqueue_one id s ttl r) (still jobs h.1))
  where
    still : (js : List (ℕ × JobState)) → IsFresh js r → IsFresh js (enqueue_one id s ttl r)
    still [] k = tt
    still ((i, u) ∷ js) k = (k.0, still js k.1)

pub enqueue_jobs-Stays :
    (jobs : List (ℕ × JobState)) (ttl : ℕ) (r : Store)
    → IsFresh jobs r
    → Stays r (enqueue_jobs jobs ttl r)
unfolding enqueue_jobs
enqueue_jobs-Stays [] ttl r h = Stays-refl r
enqueue_jobs-Stays (j ∷ jobs) ttl r h =
    Stays-trans r (enqueue_loop (j ∷ jobs) ttl r) _ (enqueue_loop-Stays (j ∷ jobs) ttl r h)
      (record { inflight = refl; slots = refl; loads = refl; pages = refl; same = λ i m. refl })

pub reschedule_harvest-Stays :
    (id delay now : ℕ) (r : Store) → Stays r (reschedule_harvest id delay now r)
unfolding reschedule_harvest
reschedule_harvest-Stays id delay now r = record {
  inflight = refl;
  slots = refl;
  loads = refl;
  pages = refl;
  same = λ j m. ground arith;
}

pub forget_harvests-Stays : (ids : List ℕ) (r : Store) → Stays r (forget_harvests ids r)
unfolding forget_harvests
forget_harvests-Stays ids r = record {
  inflight = refl;
  slots = refl;
  loads = refl;
  pages = refl;
  same = λ j m. refl;
}

pub count_requeue-Stays : (id : ℕ) (r : Store) → Stays r (count_requeue id r)
unfolding count_requeue
count_requeue-Stays id r = record {
  inflight = refl;
  slots = refl;
  loads = refl;
  pages = refl;
  same = λ j m. ground arith;
}

pub schedule_next_poll-Stays :
    (id at now : ℕ) (r : Store) → Stays r (schedule_next_poll id at now r)
unfolding schedule_next_poll
schedule_next_poll-Stays id at now r = record {
  inflight = refl;
  slots = refl;
  loads = refl;
  pages = refl;
  same = λ j m. ground arith;
}
