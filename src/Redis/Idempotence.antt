-- ===== src/Redis/Idempotence.antt =====
-- State functions of app/services/redis_jobs.py called twice for one job.
use tuzka_as_a_service.Prelude.{
  ℕ, ◌≡◌, Bool, true, false, Option, none, Text, arith, member, member-srem, srem_absent,
}
use tuzka_as_a_service.Redis.State.{
  JobState, Hash, absent, partial, whole, EngineRun, BatchCounts, Store, is_terminal,
}
use tuzka_as_a_service.Redis.Lifecycle.{release_done, set_done, set_failed}

-- A second engine-done report of the job, by any poller with any snapshot, is refused and changes
-- nothing.
pub release_done_once :
    (id : ℕ) (s s' : JobState) (run run' : Option EngineRun) (now now' : ℕ) (r : Store)
    → let r1 = (release_done id s run now r).0 in release_done id s' run' now' r1 ≡ (r1, false)
unfolding release_done
release_done_once id s s' run run' now now' r = ground (arith, member-srem id id r.inflight)

-- The two ways to finish a job.
pub data Outcome : Type 0 where
  succeed : Option JobState → Outcome
  give_up : Text → Outcome

abbrev pub finish_with : Outcome → ℕ → ℕ → ℕ → Store → Store × Option (ℕ × BatchCounts)
finish_with (succeed given) id ttl now r = set_done id ttl given now r
finish_with (give_up error) id ttl now r = set_failed id error ttl now r

-- What the counters of a keyspace say.
pub record SameCounters (r t : Store) : Type 0 where
  pub queued : t.load_queued ≡ r.load_queued
  pub inflight_loads : t.load_inflight ≡ r.load_inflight
  pub slots : t.backend_inflight ≡ r.backend_inflight
  pub pages : t.backend_batches ≡ r.backend_batches
  pub batches : t.batches ≡ r.batches
  pub inflight : t.inflight ≡ r.inflight

abbrev is_finished : Hash → Bool
is_finished absent = false
is_finished (partial m) = true
is_finished (whole s) = is_terminal s.status

set_done_finishes :
    (id ttl now : ℕ) (given : Option JobState) (r : Store)
    → let t = (set_done id ttl given now r).0 in
      (member id t.inflight ≡ false) × (is_finished (t.jobs id) ≡ true)
unfolding set_done
set_done_finishes id ttl now given r = (ground (arith, member-srem id id r.inflight), ground arith)

set_failed_finishes :
    (id ttl now : ℕ) (error : Text) (r : Store)
    → let t = (set_failed id error ttl now r).0 in
      (member id t.inflight ≡ false) × (is_finished (t.jobs id) ≡ true)
unfolding set_failed
set_failed_finishes id ttl now error r =
    (ground (arith, member-srem id id r.inflight), ground arith)

set_done_again :
    (id ttl now : ℕ) (given : Option JobState) (r : Store)
    → member id r.inflight ≡ false
    → is_finished (r.jobs id) ≡ true
    → SameCounters r (set_done id ttl given now r).0 × ((set_done id ttl given now r).1 ≡ none)
unfolding set_done
set_done_again id ttl now given r m f = (
  record {
    queued = ground arith;
    inflight_loads = ground arith;
    slots = ground arith;
    pages = ground arith;
    batches = ground arith;
    inflight = ground (arith, srem_absent id r.inflight m);
  },
  ground arith,
)

set_failed_again :
    (id ttl now : ℕ) (error : Text) (r : Store)
    → member id r.inflight ≡ false
    → is_finished (r.jobs id) ≡ true
    → SameCounters r (set_failed id error ttl now r).0 × ((set_failed id error ttl now r).1 ≡ none)
unfolding set_failed
set_failed_again id ttl now error r m f = (
  record {
    queued = ground arith;
    inflight_loads = ground arith;
    slots = ground arith;
    pages = ground arith;
    batches = ground arith;
    inflight = ground (arith, srem_absent id r.inflight m);
  },
  ground arith,
)

-- `set_done` and `set_failed`, in either order, count one outcome of the job: once one of them
-- ran, the next one changes no counter and reports no batch progress.
pub finish_once :
    (o o' : Outcome) (id ttl ttl' now now' : ℕ) (r : Store)
    → let t = (finish_with o id ttl now r).0 in
      SameCounters t (finish_with o' id ttl' now' t).0 × ((finish_with o' id ttl' now' t).1 ≡ none)
finish_once o o' id ttl ttl' now now' r = again o' (finish_with o id ttl now r).0 (finishes o)
  where
    finishes :
        (p : Outcome)
        → let t = (finish_with p id ttl now r).0 in
          (member id t.inflight ≡ false) × (is_finished (t.jobs id) ≡ true)
    finishes (succeed given) = set_done_finishes id ttl now given r
    finishes (give_up error) = set_failed_finishes id ttl now error r

    again :
        (p : Outcome) (t : Store)
        → (member id t.inflight ≡ false) × (is_finished (t.jobs id) ≡ true)
        → SameCounters t (finish_with p id ttl' now' t).0
          × ((finish_with p id ttl' now' t).1 ≡ none)
    again (succeed given) t f = set_done_again id ttl' now' given t f.0 f.1
    again (give_up error) t f = set_failed_again id ttl' now' error t f.0 f.1
