-- ===== src/Submit/Admission.antt =====
-- How far one tick of the submit worker fills the storage budget (app/workers/submit/worker.py).
use tuzka_as_a_service.Prelude.{
  length-keep, list_cases, ℕ, suc, ◌+◌, ◌-◌, ◌≤◌, ◌≡◌, refl, Option, none, some, List, [], ◌∷◌,
  Text, arith, ◌==◌, member, keep, length, length-take, min, max, Bool-cases, inl, inr, ◌∙◌, ap,
}
use tuzka_as_a_service.Redis.State.{JobState, Store, get_job}
use tuzka_as_a_service.Redis.Queue.{
  QueueEntry, promote_due_retries, peek_pending, pending_levels, claim_pending,
}
use tuzka_as_a_service.Redis.Peek.{peek_pending-take, backlog}
use tuzka_as_a_service.Dispatch.Number.{Number}
use tuzka_as_a_service.Dispatch.Types.{Backend, BackendSlot, PendingJob}
use tuzka_as_a_service.Dispatch.Allocate.{allocate_scored}
use tuzka_as_a_service.Dispatch.Capacity.{slot_at, InOrder, allocate_scored_placed}
use tuzka_as_a_service.Submit.{World}
use tuzka_as_a_service.Submit.Tick.{
  TickRun, check_health, eligible_slots, dispatch_budget, drop_gone, sum_free, tier_priorities,
  tier_of, pending_jobs, claims, dispatch_on, dispatch_all, dispatch_tier, tier_loop, run_tick,
}
use tuzka_as_a_service.Submit.Unstored.{
  unstored, dispatch_job-GrowsByOne, promote_unstored, unstored-drop_pending,
  unstored-claim_pending,
}

eligible_slots-store :
    (e : TickRun) (backends : List Backend) (w : World)
    → (eligible_slots e backends w).0.store ≡ w.store
unfolding eligible_slots check_health
eligible_slots-store e [] w = refl
eligible_slots-store e (b ∷ backends) w =
    eligible_slots-store e backends (check_health e b w).0 ∙ ground arith

module _ (N : Number) (spp : ℕ → Text → N.Val) (tolerance : N.Val) where
  length-InOrder :
      (placed : List (PendingJob N × ℕ)) (jobs : List (PendingJob N))
      → InOrder N spp tolerance placed jobs
      → length placed ≤ length jobs
  length-InOrder [] jobs h = omega arith
  length-InOrder (p ∷ placed) [] h = elim h [ ]
  length-InOrder (p ∷ placed) (job ∷ jobs) (inl (q, h)) =
      omega (arith, length-InOrder placed jobs h)
  length-InOrder (p ∷ placed) (job ∷ jobs) (inr h) =
      omega (arith, length-InOrder (p ∷ placed) jobs h)

  length-pending_jobs :
      (r : Store) (entries : List QueueEntry)
      → length (pending_jobs N spp tolerance r entries) ≤ length entries
  length-pending_jobs r [] = omega arith
  length-pending_jobs r (q ∷ entries) = ground (arith, length-pending_jobs r entries)

  unstored-dispatch_on :
      (e : TickRun) (job : PendingJob N) (slot : Option BackendSlot) (s : Option JobState)
      (w : World)
      → unstored (dispatch_on N spp tolerance e job slot s w).store ≤ suc (unstored w.store)
  unstored-dispatch_on e job none s w = omega arith
  unstored-dispatch_on e job (some slot) none w = omega arith
  unstored-dispatch_on e job (some slot) (some s) w =
      dispatch_job-GrowsByOne e.dispatch job.job_id job.score
        (record { id = slot.backend.id; url = e.url slot.backend.id }) slot.domains s
        (e.image job.job_id) (e.answer job.job_id) w

  unstored-dispatch_all :
      (e : TickRun) (read : Store) (tier : List BackendSlot) (assigned : List (PendingJob N × ℕ))
      (w : World)
      → unstored (dispatch_all N spp tolerance e read tier assigned w).store
        ≤ unstored w.store + length assigned
  unfolding dispatch_all
  unstored-dispatch_all e read tier [] w = omega arith
  unstored-dispatch_all e read tier ((job, i) ∷ rest) w =
      let s = get_job read job.job_id in
      let one = unstored-dispatch_on e job (slot_at tier i) s w in
      let more =
        unstored-dispatch_all e read tier rest
          (dispatch_on N spp tolerance e job (slot_at tier i) s w) in
      omega (arith, one, more)

  -- A tier dispatches at most the peeked jobs, and each adds at most one unstored job.
  dispatch_tier-bound :
      (e : TickRun) (tier : List BackendSlot) (entries : List QueueEntry) (w : World)
      → let (v, dispatched) = dispatch_tier N spp tolerance e tier entries w in
        (unstored v.store ≤ unstored w.store + dispatched) × (dispatched ≤ length entries)
  unfolding dispatch_tier drop_gone
  dispatch_tier-bound e tier entries w =
      let jobs = pending_jobs N spp tolerance w.store entries in
      let allocated = (allocate_scored N spp tolerance tier jobs).1 in
      let kept = drop_gone entries w.store in
      let (r, claimed) =
        claim_pending e.dispatch.now (claims N spp tolerance entries allocated) kept in
      let assigned = keep (λ (a : PendingJob N × ℕ). member a.0.job_id claimed) allocated in
      let same =
        unstored-claim_pending e.dispatch.now (claims N spp tolerance entries allocated) kept in
      let grown = unstored-dispatch_all e w.store tier assigned (record w { store = r }) in
      (
        omega (arith, same, grown, unstored-drop_pending _ w.store),
        omega (
          arith,
          length-keep (λ (a : PendingJob N × ℕ). member a.0.job_id claimed) allocated,
          length-InOrder allocated jobs (allocate_scored_placed N spp tolerance tier jobs).1,
          length-pending_jobs w.store entries,
        ),
      )

  length-peek_pending : (count : ℕ) (r : Store) → length (peek_pending count r) ≤ count
  length-peek_pending count r = omega (
    arith,
    ap length (peek_pending-take count r).0,
    length-take count (backlog r.pending (pending_levels r)),
  )

  unstored-tier_loop :
      (e : TickRun) (eligible : List BackendSlot) (priorities : List ℕ) (remaining : ℕ) (w : World)
      → unstored (tier_loop N spp tolerance e eligible priorities remaining w).store
        ≤ unstored w.store + remaining
  unfolding tier_loop
  unstored-tier_loop e eligible [] remaining w = omega arith
  unstored-tier_loop e eligible (priority ∷ priorities) remaining w =
      let tier = tier_of priority eligible in
      let capacity = min (sum_free tier) remaining in
      let peeked = length-peek_pending capacity w.store in
      elim (Bool-cases (capacity == 0)) [
        | inl full ↦ rw full (unstored-tier_loop e eligible priorities remaining w)
        | inr room ↦ rw room (elim (list_cases (peek_pending capacity w.store)) [
          | inl nothing ↦ rw nothing (omega arith)
          | inr (q, qs, found) ↦
              let (grown, few) = dispatch_tier-bound e tier (peek_pending capacity w.store) w in
              let (v, dispatched) =
                dispatch_tier N spp tolerance e tier (peek_pending capacity w.store) w in
              let rest = unstored-tier_loop e eligible priorities (remaining - dispatched) v in
              rw found (omega (arith, grown, few, rest, peeked))
        ])
      ]

  -- A tick never fills the storage beyond its limit: afterwards the jobs in flight and those that wait
  -- for their harvest are at most `unstored_job_max` together, or no more than they were, whatever the
  -- engines, the image store and the other tiers did.
  pub unstored-run_tick :
      (e : TickRun) (w : World)
      → unstored (run_tick N spp tolerance e w).store ≤ max e.unstored_job_max (unstored w.store)
  unfolding run_tick dispatch_budget
  unstored-run_tick e w =
      let w1 : World = record w { store = (promote_due_retries e.dispatch.now w.store).0 } in
      let promoted = promote_unstored e.dispatch.now w.store in
      let (w2, eligible) = eligible_slots e e.backends w1 in
      let same = ap unstored (eligible_slots-store e e.backends w1) in
      let remaining = dispatch_budget e.unstored_job_max w2.store in
      let grown = unstored-tier_loop e eligible (tier_priorities eligible) remaining w2 in
      elim (Bool-cases (remaining == 0)) [
        | inl full ↦ rw full (omega (arith, promoted, same))
        | inr room ↦ rw room (omega (arith, promoted, same, grown))
      ]
