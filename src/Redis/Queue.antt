-- ===== src/Redis/Queue.antt =====
-- The pending and delayed queues of app/services/redis_jobs.py: enqueueing, peeking, claiming,
-- and the ways back onto a queue. `now` is `time.time()`.
use tuzka_as_a_service.Prelude.{
  ℕ, ◌+◌, ◌-◌, Bool, true, false, ◌||◌, not, Option, none, some, List, [], ◌∷◌, ◌++◌, Text, ltb,
  leb, ◌==◌, if◌then◌else◌, update, or_else, sadd, take, keep, length,
}
use tuzka_as_a_service.Prelude.Int.{pos}
use tuzka_as_a_service.Load.{load_field}
use tuzka_as_a_service.Redis.ZSet.{ZSet, zadd, zrem, zhas, zuntil}
use tuzka_as_a_service.Redis.State.{
  JobStatus, is_queued, JobState, Hash, absent, partial, whole, hset, exists, Store, bump, get_job,
  signal_submit,
}

abbrev pub job_load_field : JobState → Text
job_load_field s = load_field s.domain s.outputs

-- `_add_pending`.
unfoldable pub add_pending : ℕ → ℕ → ℕ → Store → Store
add_pending priority id score r = signal_submit (record r {
  pending = update priority (zadd id score (r.pending priority)) r.pending;
  levels = sadd priority r.levels;
})

abbrev note_score : ℕ → Hash → Hash
note_score score = hset (λ m. m) (λ s. record s { queue_score = some score })

abbrev avoid : Option ℕ → Hash → Hash
avoid none h = h
avoid (some b) h =
    hset (λ m. m)
      (λ s. record s { avoid_backends = keep (λ v. not (v == b)) s.avoid_backends ++ (b ∷ []) }) h

-- `schedule_retry`.
unfoldable pub schedule_retry : ℕ → ℕ → ℕ → Option ℕ → ℕ → Store → Store
schedule_retry id original_score delay avoid_backend_id now r = record r {
  jobs = update id (avoid avoid_backend_id (note_score original_score (r.jobs id))) r.jobs;
  delayed = zadd id (now + delay) r.delayed;
}

-- One member of `promote_due_retries`, with the number promoted so far.
unfoldable pub promote_one : ℕ → ℕ → Store × ℕ → Store × ℕ
unfolding add_pending
promote_one now id (r, count) =
    if zhas id r.delayed
    then (let r1 = record r { delayed = zrem id r.delayed } in
        elim (get_job r1 id) [
          | none ↦ (r1, count)
          | some s ↦ (add_pending s.priority id (or_else s.queue_score now) r1, count + 1)
        ])
    else (r, count)

unfoldable pub promote_loop : ℕ → ZSet → Store × ℕ → Store × ℕ
promote_loop now [] acc = acc
promote_loop now ((id, score) ∷ rest) acc = promote_loop now rest (promote_one now id acc)

-- `promote_due_retries`.
unfoldable pub promote_due_retries : ℕ → Store → Store × ℕ
unfolding promote_loop promote_one
promote_due_retries now r = promote_loop now (zuntil now r.delayed) (r, 0)

-- One job of `enqueue_jobs`. HSET leaves the fields that the new state does not set.
abbrev or_old {ℓ} : {A : Type ℓ} → Option A → Option A → Option A
or_old none old = old
or_old (some a) old = some a

store_state : JobState → Hash → Hash
store_state s absent = whole s
store_state s (partial m) = whole (record s {
  claimed_at = or_old s.claimed_at m.claimed_at;
  backend_id = or_old s.backend_id m.backend_id;
})
store_state s (whole old) = whole (record s {
  external_id = or_old s.external_id old.external_id;
  batch_id = or_old s.batch_id old.batch_id;
  claimed_at = or_old s.claimed_at old.claimed_at;
  queue_score = or_old s.queue_score old.queue_score;
  engine_job_id = or_old s.engine_job_id old.engine_job_id;
  backend_url = or_old s.backend_url old.backend_url;
  backend_id = or_old s.backend_id old.backend_id;
  next_poll_at = or_old s.next_poll_at old.next_poll_at;
  last_poll = or_old s.last_poll old.last_poll;
  harvest_times = or_old s.harvest_times old.harvest_times;
  error = or_old s.error old.error;
  finished_at = or_old s.finished_at old.finished_at;
})

unfoldable pub enqueue_one : ℕ → JobState → ℕ → Store → Store
unfolding store_state
enqueue_one id s state_ttl r = record r {
  jobs = update id (store_state s (r.jobs id)) r.jobs;
  expiry = update id state_ttl r.expiry;
  load_queued = bump (job_load_field s) (pos 1) r.load_queued;
  pending = update s.priority (zadd id s.submitted_at (r.pending s.priority)) r.pending;
  levels = sadd s.priority r.levels;
}

unfoldable pub enqueue_loop : List (ℕ × JobState) → ℕ → Store → Store
unfolding enqueue_one
enqueue_loop [] state_ttl r = r
enqueue_loop ((id, s) ∷ jobs) state_ttl r =
    enqueue_loop jobs state_ttl (enqueue_one id s state_ttl r)

-- `enqueue_jobs`. The chunks of 500 only group the commands into round trips.
unfoldable pub enqueue_jobs : List (ℕ × JobState) → ℕ → Store → Store
unfolding enqueue_loop
enqueue_jobs [] state_ttl r = r
enqueue_jobs (j ∷ jobs) state_ttl r = signal_submit (enqueue_loop (j ∷ jobs) state_ttl r)

-- `prios.sort(reverse=True)`.
unfoldable pub place_down : ℕ → List ℕ → List ℕ
place_down a [] = a ∷ []
place_down a (b ∷ bs) = let rest = place_down a bs in if ltb a b then b ∷ rest else a ∷ b ∷ bs

unfoldable pub sort_down : List ℕ → List ℕ
unfolding place_down
sort_down [] = []
sort_down (a ∷ as') = place_down a (sort_down as')

abbrev pub or_zero : List ℕ → List ℕ
or_zero [] = 0 ∷ []
or_zero (a ∷ rest) = a ∷ rest

-- `_pending_levels`.
unfoldable pub pending_levels : Store → List ℕ
unfolding sort_down
pending_levels r = or_zero (sort_down r.levels)

pub record QueueEntry : Type 0 where
  pub job_id : ℕ
  pub score : ℕ
  pub priority : ℕ

abbrev pub entries_of : ℕ → ZSet → List QueueEntry
entries_of priority [] = []
entries_of priority ((id, score) ∷ z) =
    record { job_id = id; score = score; priority = priority } ∷ entries_of priority z

-- The loop of `peek_pending` over the levels.
unfoldable pub peek_loop : (ℕ → ZSet) → ℕ → List ℕ → List QueueEntry → List QueueEntry
peek_loop pending count [] results = results
peek_loop pending count (p ∷ levels) results =
    let rest =
      peek_loop pending count levels
        (results ++ entries_of p (take (count - length results) (pending p))) in
    if leb count (length results) then results else rest

-- `peek_pending`.
unfoldable pub peek_pending : ℕ → Store → List QueueEntry
unfolding peek_loop
peek_pending count r = peek_loop r.pending count (pending_levels r) []

abbrev stamp_claim : ℕ → Hash → Hash
stamp_claim now =
    hset (λ m. record m { claimed_at = some now }) (λ s. record s { claimed_at = some now })

-- `_CLAIM_LUA`.
unfoldable pub claim_one : ℕ → QueueEntry → Store → Store × Bool
claim_one now e r =
    if zhas e.job_id (r.pending e.priority)
    then (let r1 = record r {
      pending = update e.priority (zrem e.job_id (r.pending e.priority)) r.pending;
    } in
        if exists (r1.jobs e.job_id)
        then (
          record r1 { jobs = update e.job_id (stamp_claim now (r1.jobs e.job_id)) r1.jobs },
          true,
        )
        else (r1, false))
    else (r, false)

abbrev with_id : ℕ → Bool → List ℕ → List ℕ
with_id id true ids = id ∷ ids
with_id id false ids = ids

-- `claim_pending`: the store after it, and the ids claimed.
unfoldable pub claim_pending : ℕ → List QueueEntry → Store → Store × List ℕ
unfolding claim_one
claim_pending now [] r = (r, [])
claim_pending now (e ∷ entries) r =
    let (r1, won) = claim_one now e r in
    let (r2, ids) = claim_pending now entries r1 in (r2, with_id e.job_id won ids)

-- `drop_pending`.
unfoldable pub drop_pending : List QueueEntry → Store → Store
drop_pending [] r = r
drop_pending (e ∷ entries) r =
    drop_pending entries
      (record r { pending = update e.priority (zrem e.job_id (r.pending e.priority)) r.pending })

-- What `_REQUEUE_ORPHAN_LUA` reads of a hash: status, priority, submit and claim times.
pub record OrphanFields : Type 0 where
  pub status : Option JobStatus
  pub priority : Option ℕ
  pub submitted_at : Option ℕ
  pub claimed_at : Option ℕ

abbrev pub orphan_fields : Hash → OrphanFields
orphan_fields absent = record {
  status = none;
  priority = none;
  submitted_at = none;
  claimed_at = none;
}
orphan_fields (partial m) = record {
  status = m.status;
  priority = none;
  submitted_at = none;
  claimed_at = m.claimed_at;
}
orphan_fields (whole s) = record {
  status = some s.status;
  priority = some s.priority;
  submitted_at = some s.submitted_at;
  claimed_at = s.claimed_at;
}

abbrev pub says_queued : Option JobStatus → Bool
says_queued none = false
says_queued (some s) = is_queued s

-- `now - claimed_at < grace`; the difference is negative if the claim lies ahead.
abbrev pub claimed_recently : Option ℕ → ℕ → ℕ → Bool
claimed_recently none now grace = false
claimed_recently (some c) now grace = ltb now (c + grace)

-- `_REQUEUE_ORPHAN_LUA`.
unfoldable pub requeue_orphan : ℕ → ℕ → ℕ → Store → Store × Bool
requeue_orphan id now grace r =
    let f = orphan_fields (r.jobs id) in
    let p = or_else f.priority 0 in
    if not (says_queued f.status)
      || zhas id r.delayed
      || claimed_recently f.claimed_at now grace
      || zhas id (r.pending p)
    then (r, false)
    else (
      record r {
        pending = update p (zadd id (or_else f.submitted_at now) (r.pending p)) r.pending;
        levels = sadd p r.levels;
      },
      true,
    )

unfoldable pub orphan_loop : List ℕ → ℕ → ℕ → Store → Store × List ℕ
unfolding requeue_orphan
orphan_loop [] now grace r = (r, [])
orphan_loop (id ∷ ids) now grace r =
    let (r1, added) = requeue_orphan id now grace r in
    let (r2, requeued) = orphan_loop ids now grace r1 in (r2, with_id id added requeued)

abbrev pub signal_if_any : List ℕ → Store → Store
signal_if_any [] r = r
signal_if_any (id ∷ ids) r = signal_submit r

-- `requeue_orphans`.
unfoldable pub requeue_orphans : List ℕ → ℕ → ℕ → Store → Store × List ℕ
unfolding orphan_loop
requeue_orphans ids now grace r =
    let (r1, requeued) = orphan_loop ids now grace r in (signal_if_any requeued r1, requeued)

-- `requeue_job`.
unfoldable pub requeue_job : ℕ → ℕ → Store → Store
unfolding add_pending
requeue_job id original_score r =
    add_pending (elim (get_job r id) [ none ↦ 0 | some s ↦ s.priority ]) id original_score r
