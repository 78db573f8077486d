-- ===== src/Redis/Lifecycle.antt =====
-- The state functions of app/services/redis_jobs.py: a job goes to an engine, its slot comes
-- back, its results are stored, it fails, or it goes back on its queue.
use tuzka_as_a_service.Prelude.{
  ℕ, zero, suc, ◌+◌, Bool, true, false, Option, none, some, ◌∷◌, Text, ltb, if◌then◌else◌, update,
  or_else, srem, member,
}
use tuzka_as_a_service.Prelude.Int.{ℤ, pos, negsuc, ◌+ℤ◌, ltb_ℤ}
use tuzka_as_a_service.Redis.ZSet.{zadd, zrem, zhas}
use tuzka_as_a_service.Redis.State.{
  JobStatus, queued, running, storing, done, failed, is_terminal, is_queued, EngineRun, JobState,
  Hash, hset, hdel, exists, BatchCounts, Store, bump, bump_at, get_job, signal_submit, signal_poll,
}
use tuzka_as_a_service.Redis.Queue.{job_load_field, add_pending, schedule_retry}

-- The truth value of an optional backend id: 0 counts as none.
abbrev pub truthy : Option ℕ → Option ℕ
truthy none = none
truthy (some zero) = none
truthy (some (suc b)) = some (suc b)

-- A counter of `backend:<id>:batches`, moved by HINCRBY.
abbrev pub bump_batch : ℕ → ℕ → ℤ → (ℕ → ℕ → Option ℤ) → ℕ → ℕ → Option ℤ
bump_batch backend batch d m =
    update backend (update batch (some (or_else (m backend batch) (pos 0) +ℤ d)) (m backend)) m

abbrev mark_running : Text → Text → ℕ → ℕ → Hash → Hash
mark_running engine_job_id backend_url backend_id next_poll =
    hset (λ m. record m { status = some running; backend_id = some backend_id })
      (λ s. record s {
        status = running;
        engine_job_id = some engine_job_id;
        backend_url = some backend_url;
        backend_id = some backend_id;
        next_poll_at = some next_poll;
      })

abbrev enter_batch : ℕ → Option ℕ → Store → Store
enter_batch backend_id none r = r
enter_batch backend_id (some batch) r = record r {
  backend_batches = bump_batch backend_id batch (pos 1) r.backend_batches;
}

abbrev enter_load : ℕ → Option JobState → Store → Store
enter_load backend_id none r = r
enter_load backend_id (some s) r = enter_batch backend_id s.batch_id (record r {
  load_queued = bump (job_load_field s) (negsuc 0) r.load_queued;
  load_inflight = bump (job_load_field s) (pos 1) r.load_inflight;
})

-- `set_running`; `next_poll` is `time.time() + settings.poll_backoff_initial`.
unfoldable pub set_running : ℕ → Text → Text → ℕ → ℕ → ℕ → Store → Store
set_running id engine_job_id backend_url backend_id state_ttl next_poll r =
    let r1 = record r {
      jobs =
          update id (mark_running engine_job_id backend_url backend_id next_poll (r.jobs id))
            r.jobs;
      expiry = update id state_ttl r.expiry;
    } in
    signal_poll (
      if member id r1.inflight
      then r1
      else (enter_load backend_id (get_job r1 id) (record r1 {
        inflight = id ∷ r1.inflight;
        backend_inflight = bump_at backend_id (pos 1) r1.backend_inflight;
      })))

abbrev count_page : JobStatus → BatchCounts → BatchCounts
count_page done c = record c { done_pages = c.done_pages + 1 }
count_page failed c = record c { failed_pages = c.failed_pages + 1 }
count_page _ c = c

-- `_count_batch_page`: the batch's new counts with its id, if a page was counted.
unfoldable pub count_batch_page :
    Option JobState → JobStatus → Store → Store × Option (ℕ × BatchCounts)
count_batch_page none status r = (r, none)
count_batch_page (some s) status r = elim s.batch_id [
  | none ↦ (r, none)
  | some batch ↦
      if is_terminal s.status
      then (r, none)
      else (let counts = count_page status (r.batches batch) in
          (record r { batches = update batch counts r.batches }, some (batch, counts)))
]

abbrev drop_if_empty : ℕ → ℕ → (ℕ → ℕ → Option ℤ) → ℕ → ℕ → Option ℤ
drop_if_empty backend batch m =
    if ltb_ℤ (pos 0) (or_else (m backend batch) (pos 0))
    then m
    else update backend (update batch none (m backend)) m

abbrev leave_batch : ℕ → Option ℕ → Store → Store
leave_batch backend_id none r = r
leave_batch backend_id (some batch) r = record r {
  backend_batches =
      drop_if_empty backend_id batch (bump_batch backend_id batch (negsuc 0) r.backend_batches);
}

-- `_release_batch`.
unfoldable pub release_batch : ℕ → Option JobState → Store → Store
release_batch backend_id none r = r
release_batch backend_id (some s) r = leave_batch backend_id s.batch_id r

abbrev release_slot : Option ℕ → Store → Store
release_slot none r = r
release_slot (some b) r = record r { backend_inflight = bump_at b (negsuc 0) r.backend_inflight }

abbrev release_page : Option ℕ → Option JobState → Store → Store
release_page none state r = r
release_page (some b) state r = release_batch b state r

abbrev leave_load : Option JobState → Store → Store
leave_load none r = r
leave_load (some s) r = record r {
  load_inflight = bump (job_load_field s) (negsuc 0) r.load_inflight;
}

abbrev mark_storing : Option EngineRun → Hash → Hash
mark_storing run h =
    if exists h
    then (hset (λ m. record m { status = some storing })
        (λ s. record s { status = storing; harvest_times = run; harvest_attempts = 0 }) h)
    else h

-- `release_done` with `_RELEASE_DONE_LUA`.
unfoldable pub release_done : ℕ → JobState → Option EngineRun → ℕ → Store → Store × Bool
unfolding release_batch
release_done id s run now r =
    if member id r.inflight
    then (
      signal_submit (
          release_page s.backend_id (some s) (
            release_slot s.backend_id (
              leave_load (some s) (record r {
                inflight = srem id r.inflight;
                pending_harvest = zadd id now r.pending_harvest;
                jobs = update id (mark_storing run (r.jobs id)) r.jobs;
              })))),
      true,
    )
    else (r, false)

abbrev backend_of : Option JobState → Option ℕ
backend_of none = none
backend_of (some s) = truthy s.backend_id

abbrev forget_harvest_fields : Hash → Hash
forget_harvest_fields = hdel (λ m. m) (λ s. record s { harvest_times = none; harvest_attempts = 0 })

abbrev mark_done : ℕ → Hash → Hash
mark_done now h = forget_harvest_fields (
    hset (λ m. record m { status = some done })
      (λ s. record s { status = done; finished_at = some now }) h)

-- The state that `set_done` works with: its caller's snapshot, unless it is a batch's page.
abbrev snapshot_or_stored : Option JobState → Option JobState → Option JobState
snapshot_or_stored none stored = stored
snapshot_or_stored (some s) stored = elim s.batch_id [ none ↦ some s | some b ↦ stored ]

abbrev signal_if : Bool → Store → Store
signal_if true r = signal_submit r
signal_if false r = r

abbrev signal_if_backend : Option ℕ → Store → Store
signal_if_backend none r = r
signal_if_backend (some b) r = signal_submit r

-- `set_done`.
unfoldable pub set_done : ℕ → ℕ → Option JobState → ℕ → Store → Store × Option (ℕ × BatchCounts)
unfolding count_batch_page release_batch
set_done id state_ttl given now r =
    let state = snapshot_or_stored given (get_job r id) in
    let (r1, batch) = count_batch_page state done r in
    let backend_id = backend_of state in
    let r2 = record r1 {
      jobs = update id (mark_done now (r1.jobs id)) r1.jobs;
      expiry = update id state_ttl r1.expiry;
      inflight = srem id r1.inflight;
      pending_harvest = zrem id r1.pending_harvest;
    } in
    if member id r1.inflight
    then (
      release_page backend_id state
          (signal_if_backend backend_id (release_slot backend_id (leave_load state r2))),
      batch,
    )
    else (signal_if (zhas id r1.pending_harvest) r2, batch)

abbrev mark_failed : Text → ℕ → Hash → Hash
mark_failed error now h = forget_harvest_fields (
    hset (λ m. record m { status = some failed })
      (λ s. record s { status = failed; error = some error; finished_at = some now }) h)

abbrev leave_queue : Option JobState → Store → Store
leave_queue none r = r
leave_queue (some s) r =
    if is_queued s.status
    then record r { load_queued = bump (job_load_field s) (negsuc 0) r.load_queued }
    else r

-- `set_failed`.
unfoldable pub set_failed : ℕ → Text → ℕ → ℕ → Store → Store × Option (ℕ × BatchCounts)
unfolding count_batch_page release_batch
set_failed id error state_ttl now r =
    let state = get_job r id in
    let (r1, batch) = count_batch_page state failed r in
    let backend_id = backend_of state in
    let r2 = signal_if (zhas id r1.pending_harvest) (record r1 {
      jobs = update id (mark_failed error now (r1.jobs id)) r1.jobs;
      expiry = update id state_ttl r1.expiry;
      inflight = srem id r1.inflight;
      pending_harvest = zrem id r1.pending_harvest;
    }) in
    if member id r1.inflight
    then (
      signal_if_backend backend_id
          (release_page backend_id state (release_slot backend_id (leave_load state r2))),
      batch,
    )
    else (leave_queue state r2, batch)

abbrev enter_queue : Option JobState → Store → Store
enter_queue none r = r
enter_queue (some s) r = record r { load_queued = bump (job_load_field s) (pos 1) r.load_queued }

abbrev mark_queued : Hash → Hash
mark_queued h =
    hdel (λ m. record m { backend_id = none })
      (λ s. record s {
        engine_job_id = none;
        backend_url = none;
        backend_id = none;
        harvest_times = none;
        harvest_attempts = 0;
      })
      (hset (λ m. record m { status = some queued }) (λ s. record s { status = queued }) h)

abbrev pub priority_of : Option JobState → ℕ
priority_of none = 0
priority_of (some s) = s.priority

-- The end of `release_and_requeue`: back on the queue at once, or after a delay.
abbrev pub put_back : ℕ → ℕ → ℕ → Option ℕ → ℕ → Option JobState → Store → Store
put_back id score delay avoid_backend_id now state r =
    if ltb 0 delay
    then schedule_retry id score delay avoid_backend_id now r
    else add_pending (priority_of state) id score r

-- `release_and_requeue` up to where the job goes back on a queue.
unfoldable pub take_off_engine : ℕ → ℕ → Store → Store
unfolding release_batch
take_off_engine id state_ttl r =
    let state = get_job r id in
    let backend_id = backend_of state in
    let r1 = record r { inflight = srem id r.inflight } in
    let r2 =
      if member id r.inflight
      then release_page backend_id state
          (release_slot backend_id (enter_queue state (leave_load state r1)))
      else r1 in
    record r2 {
      jobs = update id (mark_queued (r2.jobs id)) r2.jobs;
      expiry = update id state_ttl r2.expiry;
      pending_harvest = zrem id r2.pending_harvest;
    }

-- `release_and_requeue`.
unfoldable pub release_and_requeue : ℕ → ℕ → ℕ → ℕ → Option ℕ → ℕ → Store → Store
unfolding schedule_retry add_pending
release_and_requeue id score state_ttl delay avoid_backend_id now r =
    put_back id score delay avoid_backend_id now (get_job r id) (take_off_engine id state_ttl r)
