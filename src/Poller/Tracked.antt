-- ===== src/Poller/Tracked.antt =====
-- Each state function that the poller calls, and whether a job can still be found afterwards.
use tuzka_as_a_service.Prelude.{
  ℕ, ◌+◌, ◌≡◌, refl, Bool, true, false, ◌||◌, Option, Text, arith, ◌==◌, member, member-srem,
  Bool-cases, inl, inr, ==_iff, if_either, ltb, ◌∙◌,
}
use tuzka_as_a_service.Redis.ZSet.{zhas, zscore-zrem, zscore-zadd}
use tuzka_as_a_service.Redis.State.{
  JobState, is_terminal, Hash, absent, partial, whole, EngineRun, Store, get_job, signal_poll,
}
use tuzka_as_a_service.Redis.Queue.{schedule_retry, add_pending}
use tuzka_as_a_service.Redis.Harvest.{reschedule_harvest, count_requeue, schedule_next_poll}
use tuzka_as_a_service.Redis.Lifecycle.{
  release_done, set_done, set_failed, release_and_requeue, take_off_engine, priority_of,
}

abbrev pub is_over : Hash → Bool
is_over absent = false
is_over (partial m) = false
is_over (whole s) = is_terminal s.status

abbrev pub has_priority : ℕ → Hash → Bool
has_priority p absent = false
has_priority p (partial m) = false
has_priority p (whole s) = s.priority == p

-- The job's hash is whole, and the job is running, queued at its priority, waiting for a retry or for
-- a harvest, or over.
pub record IsTracked (id p : ℕ) (r : Store) : Type 0 where
  pub hash : has_priority p (r.jobs id) ≡ true
  pub place :
      (member id r.inflight
        || zhas id (r.pending p)
        || zhas id r.delayed
        || zhas id r.pending_harvest
        || is_over (r.jobs id))
      ≡ true

-- What a state function on the job `j` does to the places of a job.
record Places (id p : ℕ) (r t : Store) : Type 0 where
  pub inflight : member id t.inflight ≡ member id r.inflight
  pub pending : zhas id (t.pending p) ≡ zhas id (r.pending p)
  pub delayed : zhas id t.delayed ≡ zhas id r.delayed
  pub harvest : zhas id t.pending_harvest ≡ zhas id r.pending_harvest
  pub hash : t.jobs id ≡ r.jobs id

Places-IsTracked : (id p : ℕ) (r t : Store) → Places id p r t → IsTracked id p r → IsTracked id p t
Places-IsTracked id p r t q k = record {
  hash = rw q.hash k.hash;
  place = rw (q.inflight, q.pending, q.delayed, q.harvest, q.hash) k.place;
}

set_failed-Places :
    (id p j : ℕ) (error : Text) (ttl now : ℕ) (r : Store)
    → (j == id) ≡ false
    → Places id p r (set_failed j error ttl now r).0
unfolding set_failed
set_failed-Places id p j error ttl now r h = record {
  inflight = ground (arith, member-srem j id r.inflight);
  pending = ground arith;
  delayed = ground arith;
  harvest = ground (arith, zscore-zrem j id r.pending_harvest);
  hash = ground arith;
}

set_done-Places :
    (id p j ttl now : ℕ) (given : Option JobState) (r : Store)
    → (j == id) ≡ false
    → Places id p r (set_done j ttl given now r).0
unfolding set_done
set_done-Places id p j ttl now given r h = record {
  inflight = ground (arith, member-srem j id r.inflight);
  pending = ground arith;
  delayed = ground arith;
  harvest = ground (arith, zscore-zrem j id r.pending_harvest);
  hash = ground arith;
}

take_off_engine-Places :
    (id p j ttl : ℕ) (r : Store) → (j == id) ≡ false → Places id p r (take_off_engine j ttl r)
unfolding take_off_engine
take_off_engine-Places id p j ttl r h = record {
  inflight = ground (arith, member-srem j id r.inflight);
  pending = ground arith;
  delayed = ground arith;
  harvest = ground (arith, zscore-zrem j id r.pending_harvest);
  hash = ground arith;
}

schedule_retry-Places :
    (id p j score delay : ℕ) (avoid_id : Option ℕ) (now : ℕ) (r : Store)
    → (j == id) ≡ false
    → Places id p r (schedule_retry j score delay avoid_id now r)
unfolding schedule_retry
schedule_retry-Places id p j score delay avoid_id now r h = record {
  inflight = refl;
  pending = refl;
  delayed = ground (arith, zscore-zadd j (now + delay) id r.delayed);
  harvest = refl;
  hash = ground arith;
}

add_pending-Places :
    (id p q j score : ℕ) (r : Store) → (j == id) ≡ false → Places id p r (add_pending q j score r)
unfolding add_pending
add_pending-Places id p q j score r h = record {
  inflight = refl;
  pending = ground (arith, zscore-zadd j score id (r.pending q), ==_iff q p);
  delayed = refl;
  harvest = refl;
  hash = refl;
}

Places-trans : (id p : ℕ) (r s t : Store) → Places id p r s → Places id p s t → Places id p r t
Places-trans id p r s t a b = record {
  inflight = b.inflight ∙ a.inflight;
  pending = b.pending ∙ a.pending;
  delayed = b.delayed ∙ a.delayed;
  harvest = b.harvest ∙ a.harvest;
  hash = b.hash ∙ a.hash;
}

release_and_requeue-Places :
    (id p j score ttl delay : ℕ) (avoid_id : Option ℕ) (now : ℕ) (r : Store)
    → (j == id) ≡ false
    → Places id p r (release_and_requeue j score ttl delay avoid_id now r)
unfolding release_and_requeue
release_and_requeue-Places id p j score ttl delay avoid_id now r h =
    let off = take_off_engine j ttl r in
    Places-trans id p r off _ (take_off_engine-Places id p j ttl r h) (
      if_either (Places id p off) (ltb 0 delay) _ _
        (schedule_retry-Places id p j score delay avoid_id now off h)
        (add_pending-Places id p (priority_of (get_job r j)) j score off h))

-- A job of that priority that is over is tracked, wherever else it stands.
over-IsTracked :
    (id p : ℕ) (r : Store)
    → has_priority p (r.jobs id) ≡ true
    → is_over (r.jobs id) ≡ true
    → IsTracked id p r
over-IsTracked id p r h o = record { hash = h; place = ground arith }

queued-IsTracked :
    (id p : ℕ) (r : Store)
    → has_priority p (r.jobs id) ≡ true
    → (zhas id (r.pending p) || zhas id r.delayed) ≡ true
    → IsTracked id p r
queued-IsTracked id p r h o = record { hash = h; place = ground arith }

set_failed_over :
    (id p : ℕ) (error : Text) (ttl now : ℕ) (r : Store)
    → has_priority p (r.jobs id) ≡ true
    → (has_priority p ((set_failed id error ttl now r).0.jobs id) ≡ true)
      × (is_over ((set_failed id error ttl now r).0.jobs id) ≡ true)
unfolding set_failed
set_failed_over id p error ttl now r h = (ground arith, ground arith)

set_done_over :
    (id p ttl now : ℕ) (given : Option JobState) (r : Store)
    → has_priority p (r.jobs id) ≡ true
    → (has_priority p ((set_done id ttl given now r).0.jobs id) ≡ true)
      × (is_over ((set_done id ttl given now r).0.jobs id) ≡ true)
unfolding set_done
set_done_over id p ttl now given r h = (ground arith, ground arith)

take_off_engine-priority :
    (id p ttl : ℕ) (r : Store)
    → has_priority p ((take_off_engine id ttl r).jobs id) ≡ has_priority p (r.jobs id)
unfolding take_off_engine
take_off_engine-priority id p ttl r = ground arith

schedule_retry-IsTracked :
    (id p score delay : ℕ) (avoid_id : Option ℕ) (now : ℕ) (r : Store)
    → has_priority p (r.jobs id) ≡ true
    → IsTracked id p (schedule_retry id score delay avoid_id now r)
unfolding schedule_retry
schedule_retry-IsTracked id p score delay avoid_id now r h =
    queued-IsTracked id p (schedule_retry id score delay avoid_id now r) (ground arith)
      (ground (arith, zscore-zadd id (now + delay) id r.delayed))

add_pending-IsTracked :
    (id p score : ℕ) (r : Store)
    → has_priority p (r.jobs id) ≡ true
    → IsTracked id p (add_pending p id score r)
unfolding add_pending
add_pending-IsTracked id p score r h =
    queued-IsTracked id p (add_pending p id score r) h
      (ground (arith, zscore-zadd id score id (r.pending p)))

priority_found :
    (id p : ℕ) (r : Store) → has_priority p (r.jobs id) ≡ true → priority_of (get_job r id) ≡ p
priority_found id p r h = ground arith

requeued-IsTracked :
    (id p score ttl delay : ℕ) (avoid_id : Option ℕ) (now : ℕ) (r : Store)
    → has_priority p (r.jobs id) ≡ true
    → IsTracked id p (release_and_requeue id score ttl delay avoid_id now r)
unfolding release_and_requeue
requeued-IsTracked id p score ttl delay avoid_id now r h =
    let off = take_off_engine id ttl r in
    let k : has_priority p (off.jobs id) ≡ true = take_off_engine-priority id p ttl r ∙ h in
    if_either (IsTracked id p) (ltb 0 delay) _ _
      (schedule_retry-IsTracked id p score delay avoid_id now off k)
      (rw (priority_found id p r h) (add_pending-IsTracked id p score off k))

module _ (id p j : ℕ) (r : Store) (t : IsTracked id p r) where
  pub release_done-IsTracked :
      (s : JobState) (run : Option EngineRun) (now : ℕ)
      → IsTracked id p (release_done j s run now r).0
  unfolding release_done
  release_done-IsTracked s run now = record {
    hash = ground (arith, t.hash);
    place = ground (
      arith,
      t.hash,
      t.place,
      zscore-zadd j now id r.pending_harvest,
      member-srem j id r.inflight,
    );
  }

  pub schedule_next_poll-IsTracked : (at now : ℕ) → IsTracked id p (schedule_next_poll j at now r)
  unfolding schedule_next_poll
  schedule_next_poll-IsTracked at now = record {
    hash = ground (arith, t.hash);
    place = ground (arith, t.hash, t.place);
  }

  pub set_failed-IsTracked :
      (error : Text) (ttl now : ℕ) → IsTracked id p (set_failed j error ttl now r).0
  set_failed-IsTracked error ttl now = elim (Bool-cases (j == id)) [
    | inl e ↦
        let q : j ≡ id = ground arith in
        let (a, b) = set_failed_over id p error ttl now r t.hash in
        rw q (over-IsTracked id p (set_failed id error ttl now r).0 a b)
    | inr e ↦ Places-IsTracked id p r _ (set_failed-Places id p j error ttl now r e) t
  ]

  pub set_done-IsTracked :
      (ttl now : ℕ) (given : Option JobState) → IsTracked id p (set_done j ttl given now r).0
  set_done-IsTracked ttl now given = elim (Bool-cases (j == id)) [
    | inl e ↦
        let q : j ≡ id = ground arith in
        let (a, b) = set_done_over id p ttl now given r t.hash in
        rw q (over-IsTracked id p (set_done id ttl given now r).0 a b)
    | inr e ↦ Places-IsTracked id p r _ (set_done-Places id p j ttl now given r e) t
  ]

  pub count_requeue-IsTracked : IsTracked id p (count_requeue j r)
  unfolding count_requeue
  count_requeue-IsTracked = record {
    hash = ground (arith, t.hash);
    place = ground (arith, t.hash, t.place);
  }

  pub reschedule_harvest-IsTracked :
      (delay now : ℕ) → IsTracked id p (reschedule_harvest j delay now r)
  unfolding reschedule_harvest
  reschedule_harvest-IsTracked delay now = record {
    hash = ground (arith, t.hash);
    place = ground (arith, t.hash, t.place, zscore-zadd j (now + delay) id r.pending_harvest);
  }

  pub release_and_requeue-IsTracked :
      (score ttl delay : ℕ) (avoid_id : Option ℕ) (now : ℕ)
      → IsTracked id p (release_and_requeue j score ttl delay avoid_id now r)
  release_and_requeue-IsTracked score ttl delay avoid_id now = elim (Bool-cases (j == id)) [
    | inl e ↦
        let q : j ≡ id = ground arith in
        rw q (requeued-IsTracked id p score ttl delay avoid_id now r t.hash)
    | inr e ↦
        Places-IsTracked id p r _
          (release_and_requeue-Places id p j score ttl delay avoid_id now r e) t
  ]

  pub signal_poll-IsTracked : IsTracked id p (signal_poll r)
  signal_poll-IsTracked = record { hash = t.hash; place = t.place }
