-- ===== src/Redis/Slots/Enter.antt =====
-- `set_running` of app/services/redis_jobs.py and the counters.
use tuzka_as_a_service.Prelude.{ℕ, suc, ◌≡◌, Bool, false, Text, arith, if◌then◌else◌, member}
use tuzka_as_a_service.Prelude.Int.{pos, ◌+ℤ◌}
use tuzka_as_a_service.Redis.State.{JobState, whole, Store}
use tuzka_as_a_service.Redis.Lifecycle.{set_running}
use tuzka_as_a_service.Redis.Slots.Tally.{
  tally_cong, holds, held, on_backend, of_field, page_on, IsCounted,
}

one_more : (n : ℕ) → pos n +ℤ pos 1 ≡ pos (suc n)
unfolding ◌+ℤ◌
one_more n = ground arith

module _ (id : ℕ) (engine_id url : Text) (b ttl at : ℕ) (r : Store) (s : JobState)
    (is_whole : r.jobs id ≡ whole s) (fresh : member id r.inflight ≡ false) where
  abbrev after : Store
  after = set_running id engine_id url b ttl at r

  held_entered :
      (p : JobState → Bool)
      → held p after ≡ (if holds p (after.jobs id) then suc (held p r) else held p r)
  unfolding set_running
  held_entered p = ground (
    arith,
    tally_cong (λ j. holds p (after.jobs j)) (λ j. holds p (r.jobs j)) r.inflight
        (λ j m. ground arith),
  )

  -- The dispatch of a queued job counts it on its backend, in its load field and in its batch.
  pub set_running-IsCounted : IsCounted r → IsCounted after
  unfolding set_running
  set_running-IsCounted c = record {
    distinct = ground (arith, c.distinct);
    slots = λ a. ground (
      arith,
      c.slots a,
      held_entered (on_backend (suc a)),
      one_more (held (on_backend (suc a)) r),
    );
    loads =
        λ f. ground (arith, c.loads f, held_entered (of_field f), one_more (held (of_field f) r));
    pages = λ a p. ground (
      arith,
      c.pages a p,
      held_entered (page_on (suc a) p),
      one_more (held (page_on (suc a) p) r),
    );
  }
