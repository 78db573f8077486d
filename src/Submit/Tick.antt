-- ===== src/Submit/Tick.antt =====
-- One tick of the submit worker: `run_tick` of app/workers/submit/worker.py with `check_health`,
-- `_eligible_slots`, `_dispatch_budget`, `_dispatch_tier` and `_queued_states`, `pending_job` of
-- app/workers/submit/steps.py and `get_backends_state` of app/services/redis_jobs.py. The jobs of a
-- gather are dispatched one after another; logging, timers and the background domain syncs are left
-- out, and a job's speed scores are an argument.
use tuzka_as_a_service.Prelude.{
  ℕ, suc, ◌+◌, ◌-◌, Bool, true, false, not, Option, none, some, List, [], ◌∷◌, Text, ltb, ◌==◌,
  if◌then◌else◌, update, or_else, member, sadd, keep, length, min,
}
use tuzka_as_a_service.Prelude.Int.{ℤ, pos, negsuc}
use tuzka_as_a_service.Retry.{Exn}
use tuzka_as_a_service.Redis.State.{JobState, Store, get_job}
use tuzka_as_a_service.Redis.Queue.{
  QueueEntry, promote_due_retries, peek_pending, claim_pending, drop_pending, sort_down,
}
use tuzka_as_a_service.Redis.Harvest.{unstored_depth}
use tuzka_as_a_service.Dispatch.Number.{Number}
use tuzka_as_a_service.Dispatch.Types.{Backend, Domains, BackendSlot, PendingJob, unstored_capacity}
use tuzka_as_a_service.Dispatch.Allocate.{allocate_scored}
use tuzka_as_a_service.Dispatch.Capacity.{slot_at}
use tuzka_as_a_service.Submit.{Run, Answer, World, dispatch_job}

-- A tick's surroundings: the registered backends as last loaded, what each engine's health check and
-- each job's image and engine answer, and what each backend serves.
pub record TickRun : Type 0 where
  pub dispatch : Run
  pub backends : List Backend
  pub healthy : ℕ → Bool
  pub served : ℕ → Domains
  pub url : ℕ → Text
  pub image : ℕ → Option Exn
  pub answer : ℕ → Answer
  pub health_cache_seconds : ℕ
  pub unstored_job_max : ℕ

abbrev is_fresh : ℕ → ℕ → Option (Bool × ℕ) → Bool
is_fresh seconds now none = false
is_fresh seconds now (some (healthy, at)) = ltb now (at + seconds)

abbrev cached_health : Option (Bool × ℕ) → Bool
cached_health none = false
cached_health (some (healthy, at)) = healthy

-- `check_health`.
unfoldable pub check_health : TickRun → Backend → World → World × Bool
check_health e b w =
    let now = e.dispatch.now in
    let cached = w.health_cache b.id in
    if is_fresh e.health_cache_seconds now cached then (w, cached_health cached) else (
      record w { health_cache = update b.id (some (e.healthy b.id, now)) w.health_cache },
      e.healthy b.id,
    )

-- `max(max_inflight - inflight, 0)`.
abbrev free_slots : ℕ → ℤ → ℕ
free_slots limit (pos n) = limit - n
free_slots limit (negsuc n) = limit + suc n

-- The slot of a healthy backend, from `get_backends_state`.
abbrev pub slot_of : TickRun → Store → Backend → BackendSlot
slot_of e r b = record {
  backend = b;
  free = free_slots b.max_inflight (r.backend_inflight b.id);
  domains = e.served b.id;
  inflight = r.backend_inflight b.id;
  batches = λ batch. or_else (r.backend_batches b.id batch) (pos 0);
  assigned = 0;
}

abbrev with_slot : Bool → BackendSlot → List BackendSlot → List BackendSlot
with_slot healthy s slots = if healthy then s ∷ slots else slots

-- `_eligible_slots`; a health check changes nothing that a slot is read from.
unfoldable pub eligible_slots : TickRun → List Backend → World → World × List BackendSlot
unfolding check_health
eligible_slots e [] w = (w, [])
eligible_slots e (b ∷ backends) w =
    let (w1, healthy) = check_health e b w in
    let (w2, slots) = eligible_slots e backends w1 in
    (w2, with_slot healthy (slot_of e w.store b) slots)

-- `_dispatch_budget`.
unfoldable pub dispatch_budget : ℕ → Store → ℕ
unfolding unstored_depth unstored_capacity
dispatch_budget limit r =
    let (inflight, storing) = unstored_depth r in unstored_capacity limit inflight storing

abbrev has_state : Store → QueueEntry → Bool
has_state r q = elim (get_job r q.job_id) [ none ↦ false | some s ↦ true ]

-- `_queued_states`: the store without the entries whose job is gone.
unfoldable pub drop_gone : List QueueEntry → Store → Store
unfolding drop_pending
drop_gone entries r = drop_pending (keep (λ q. not (has_state r q)) entries) r

-- `by_id`: the last entry of an id.
abbrev entry_by_id : List QueueEntry → ℕ → Option QueueEntry
entry_by_id [] id = none
entry_by_id (q ∷ entries) id = elim (entry_by_id entries id) [
  | some later ↦ some later
  | none ↦ if q.job_id == id then some q else none
]

abbrev cons_entry : Option QueueEntry → List QueueEntry → List QueueEntry
cons_entry none entries = entries
cons_entry (some q) entries = q ∷ entries

abbrev pub sum_free : List BackendSlot → ℕ
sum_free [] = 0
sum_free (s ∷ slots) = s.free + sum_free slots

-- The priorities of the slots, each once, highest first.
abbrev pub tier_priorities : List BackendSlot → List ℕ
tier_priorities slots = sort_down (distinct slots)
  where
    distinct : List BackendSlot → List ℕ
    distinct [] = []
    distinct (s ∷ slots) = sadd s.backend.priority (distinct slots)

abbrev pub tier_of : ℕ → List BackendSlot → List BackendSlot
tier_of priority = keep (λ s. s.backend.priority == priority)

module _ (N : Number) (spp : ℕ → Text → N.Val) (tolerance : N.Val) where
  -- `pending_job`.
  abbrev pub pending_job : QueueEntry → JobState → PendingJob N
  pending_job q s = record {
    job_id = q.job_id;
    score = q.score;
    domain = s.domain;
    outputs = s.outputs;
    avoid = s.avoid_backends;
    megapixels = N.of_nat s.megapixels;
    batch_id = s.batch_id;
  }

  abbrev cons_pending : QueueEntry → Option JobState → List (PendingJob N) → List (PendingJob N)
  cons_pending q none jobs = jobs
  cons_pending q (some s) jobs = pending_job q s ∷ jobs

  abbrev pub pending_jobs : Store → List QueueEntry → List (PendingJob N)
  pending_jobs r [] = []
  pending_jobs r (q ∷ entries) = cons_pending q (get_job r q.job_id) (pending_jobs r entries)

  abbrev pub claims : List QueueEntry → List (PendingJob N × ℕ) → List QueueEntry
  claims entries [] = []
  claims entries ((job, i) ∷ allocated) =
      cons_entry (entry_by_id entries job.job_id) (claims entries allocated)

  -- One dispatch on the slot at its place, with the job's state as it was read.
  abbrev pub dispatch_on :
      TickRun → PendingJob N → Option BackendSlot → Option JobState → World → World
  dispatch_on e job none s w = w
  dispatch_on e job (some slot) none w = w
  dispatch_on e job (some slot) (some s) w =
      dispatch_job e.dispatch job.job_id job.score
        (record { id = slot.backend.id; url = e.url slot.backend.id }) slot.domains s
        (e.image job.job_id) (e.answer job.job_id) w

  unfoldable pub dispatch_all :
      TickRun → Store → List BackendSlot → List (PendingJob N × ℕ) → World → World
  unfolding dispatch_job
  dispatch_all e read tier [] w = w
  dispatch_all e read tier ((job, i) ∷ rest) w =
      dispatch_all e read tier rest (dispatch_on e job (slot_at tier i) (get_job read job.job_id) w)

  -- `_dispatch_tier`: the world after it, and how many jobs were dispatched.
  unfoldable pub dispatch_tier : TickRun → List BackendSlot → List QueueEntry → World → World × ℕ
  unfolding drop_gone allocate_scored claim_pending dispatch_all
  dispatch_tier e tier entries w =
      let read = w.store in
      let allocated = (allocate_scored N spp tolerance tier (pending_jobs read entries)).1 in
      let (r, claimed) =
        claim_pending e.dispatch.now (claims entries allocated) (drop_gone entries read) in
      let assignments = keep (λ a. member a.0.job_id claimed) allocated in
      (dispatch_all e read tier assignments (record w { store = r }), length assignments)

  -- The loop of `run_tick` over the tiers.
  unfoldable pub tier_loop : TickRun → List BackendSlot → List ℕ → ℕ → World → World
  unfolding peek_pending dispatch_tier
  tier_loop e eligible [] remaining w = w
  tier_loop e eligible (priority ∷ priorities) remaining w =
      let tier = tier_of priority eligible in
      let capacity = min (sum_free tier) remaining in
      let entries = peek_pending capacity w.store in
      let (w1, dispatched) = dispatch_tier e tier entries w in
      let full = tier_loop e eligible priorities remaining w in
      let rest = tier_loop e eligible priorities (remaining - dispatched) w1 in
      if capacity == 0 then full else elim entries [ [] ↦ w | q ∷ qs ↦ rest ]

  -- `run_tick`.
  unfoldable pub run_tick : TickRun → World → World
  unfolding promote_due_retries eligible_slots dispatch_budget tier_loop
  run_tick e w =
      let w1 = record w { store = (promote_due_retries e.dispatch.now w.store).0 } in
      let (w2, eligible) = eligible_slots e e.backends w1 in
      let remaining = dispatch_budget e.unstored_job_max w2.store in
      let after = tier_loop e eligible (tier_priorities eligible) remaining w2 in
      if remaining == 0 then w2 else after
