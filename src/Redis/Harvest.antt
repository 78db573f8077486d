-- ===== src/Redis/Harvest.antt =====
-- The harvest queue and the small writes of app/services/redis_jobs.py that no queue depends on.
use tuzka_as_a_service.Prelude.{
  ℕ, ◌+◌, Option, none, some, List, [], ◌∷◌, update, take, length, keep,
}
use tuzka_as_a_service.Redis.ZSet.{ZSet, zadd, zrem, zhas, zuntil}
use tuzka_as_a_service.Redis.State.{hset, Store}

abbrev pub ids_of : ZSet → List ℕ
ids_of [] = []
ids_of ((id, score) ∷ z) = id ∷ ids_of z

-- `due_harvest_ids`.
unfoldable pub due_harvest_ids : ℕ → ℕ → Store → List ℕ
due_harvest_ids limit now r = take limit (ids_of (zuntil now r.pending_harvest))

abbrev first_score : ZSet → Option ℕ
first_score [] = none
first_score ((id, score) ∷ z) = some score

-- `next_harvest_at`.
unfoldable pub next_harvest_at : Store → Option ℕ
next_harvest_at r = first_score r.pending_harvest

-- `unstored_depth`.
unfoldable pub unstored_depth : Store → ℕ × ℕ
unstored_depth r = (length r.inflight, length r.pending_harvest)

-- `reschedule_harvest`.
unfoldable pub reschedule_harvest : ℕ → ℕ → ℕ → Store → Store
reschedule_harvest id delay now r = record r {
  jobs =
      update id
        (hset (λ m. m) (λ s. record s { harvest_attempts = s.harvest_attempts + 1 }) (r.jobs id))
        r.jobs;
  pending_harvest = zadd id (now + delay) r.pending_harvest;
}

abbrev pub zrem_all : List ℕ → ZSet → ZSet
zrem_all [] z = z
zrem_all (id ∷ ids) z = zrem_all ids (zrem id z)

-- `forget_harvests`.
unfoldable pub forget_harvests : List ℕ → Store → Store
forget_harvests ids r = record r { pending_harvest = zrem_all ids r.pending_harvest }

-- `pending_harvest_members`.
unfoldable pub pending_harvest_members : List ℕ → Store → List ℕ
pending_harvest_members ids r = keep (λ id. zhas id r.pending_harvest) ids

-- `count_requeue`.
unfoldable pub count_requeue : ℕ → Store → Store
count_requeue id r = record r {
  jobs = update id (hset (λ m. m) (λ s. record s { requeues = s.requeues + 1 }) (r.jobs id)) r.jobs;
}

-- `schedule_next_poll`.
unfoldable pub schedule_next_poll : ℕ → ℕ → ℕ → Store → Store
schedule_next_poll id at now r = record r {
  jobs =
      update id
        (hset (λ m. m) (λ s. record s { next_poll_at = some at; last_poll = some now }) (r.jobs id))
        r.jobs;
}
