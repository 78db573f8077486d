-- ===== src/Redis/Slots/Release.antt =====
-- Every way off an engine (`release_done`, `set_done`, `set_failed`, `release_and_requeue` of
-- app/services/redis_jobs.py) and the counters.
use tuzka_as_a_service.Prelude.{
  ℕ, suc, ◌≡◌, refl, Bool, true, false, ◌&&◌, Option, none, some, Text, arith, ◌==◌, if◌then◌else◌,
  member, srem, srem-IsDistinct, or_else, Option-cases, inl, inr, sym, subst,
}
use tuzka_as_a_service.Prelude.Int.{ℤ, pos, negsuc, ◌+ℤ◌, ltb_ℤ}
use tuzka_as_a_service.Redis.State.{JobState, Hash, whole, EngineRun, Store}
use tuzka_as_a_service.Redis.Queue.{job_load_field}
use tuzka_as_a_service.Redis.Lifecycle.{
  release_done, set_done, set_failed, release_and_requeue, take_off_engine,
}
use tuzka_as_a_service.Redis.Slots.Tally.{
  holds, held, held_left, on_backend, of_field, page_on, IsCounted,
}

-- One page less, and the batch's field dropped with the last one.
abbrev pub less_page : ℤ → ℤ
less_page x = if ltb_ℤ (pos 0) (x +ℤ negsuc 0) then x +ℤ negsuc 0 else pos 0

abbrev left_one : Store → ℕ → (JobState → Bool) → Bool
left_one r id p = member id r.inflight && holds p (r.jobs id)

-- From `r` to `t` the job left the in-flight set with all that the counters held for it.
pub record Leaves (id : ℕ) (r t : Store) : Type 0 where
  pub inflight : t.inflight ≡ srem id r.inflight
  pub others : (j : ℕ) → (id == j) ≡ false → t.jobs j ≡ r.jobs j
  pub slots :
      (b : ℕ)
      → t.backend_inflight (suc b) ≡ (
          if left_one r id (on_backend (suc b))
          then r.backend_inflight (suc b) +ℤ negsuc 0
          else r.backend_inflight (suc b))
  pub loads :
      (f : Text)
      → t.load_inflight f
        ≡ (if left_one r id (of_field f) then r.load_inflight f +ℤ negsuc 0 else r.load_inflight f)
  pub pages :
      (b batch : ℕ)
      → or_else (t.backend_batches (suc b) batch) (pos 0) ≡ (
          if left_one r id (page_on (suc b) batch)
          then less_page (or_else (r.backend_batches (suc b) batch) (pos 0))
          else or_else (r.backend_batches (suc b) batch) (pos 0))

less_one : (n : ℕ) → pos (suc n) +ℤ negsuc 0 ≡ pos n
unfolding ◌+ℤ◌
less_one n = ground arith

less_page_lem : (n : ℕ) → less_page (pos (suc n)) ≡ pos n
unfolding ◌+ℤ◌
less_page_lem n = ground arith

pub Leaves-IsCounted : (id : ℕ) (r t : Store) → Leaves id r t → IsCounted r → IsCounted t
Leaves-IsCounted id r t l c = record {
  distinct = ground (arith, l.inflight, srem-IsDistinct id r.inflight c.distinct);
  slots = λ b. ground (
    arith,
    l.slots b,
    c.slots b,
    left (on_backend (suc b)),
    less_one (held (on_backend (suc b)) t),
  );
  loads =
      λ f. ground (arith, l.loads f, c.loads f, left (of_field f), less_one (held (of_field f) t));
  pages = λ b batch. ground (
    arith,
    l.pages b batch,
    c.pages b batch,
    left (page_on (suc b) batch),
    less_page_lem (held (page_on (suc b) batch) t),
  );
}
  where
    left : (p : JobState → Bool) → held p r ≡ (if left_one r id p then suc (held p t) else held p t)
    left p = held_left p id r t c.distinct l.inflight l.others

-- A caller's snapshot names the same slot, batch and load field as the stored job.
pub record Agrees (s : JobState) (h : Hash) : Type 0 where
  pub stored : JobState
  pub is_stored : h ≡ whole stored
  pub backend : s.backend_id ≡ stored.backend_id
  pub batch : s.batch_id ≡ stored.batch_id
  pub field : job_load_field s ≡ job_load_field stored

-- The engine-done transition of a job in flight releases its backend slot, its load count and
-- its page of the batch, and touches no other job, if the caller's snapshot names the backend,
-- the batch and the load field that are stored.
pub release_done-Leaves :
    (id : ℕ) (s : JobState) (run : Option EngineRun) (now : ℕ) (r : Store)
    → member id r.inflight ≡ true
    → Agrees s (r.jobs id)
    → Leaves id r (release_done id s run now r).0
unfolding release_done
release_done-Leaves id s run now r m a = record {
  inflight = ground arith;
  others = λ j e. ground arith;
  slots = λ b. ground arith;
  loads = λ f. ground arith;
  pages = λ b batch. ground arith;
}

set_done-none-Leaves : (id ttl now : ℕ) (r : Store) → Leaves id r (set_done id ttl none now r).0
unfolding set_done
set_done-none-Leaves id ttl now r = record {
  inflight = ground arith;
  others = λ j e. ground arith;
  slots = λ b. ground arith;
  loads = λ f. ground arith;
  pages = λ b batch. ground arith;
}

-- Of a batch's page the stored state is read again.
set_done_page :
    (id ttl now : ℕ) (s : JobState) (batch : ℕ) (r : Store)
    → s.batch_id ≡ some batch
    → set_done id ttl (some s) now r ≡ set_done id ttl none now r
unfolding set_done
set_done_page id ttl now s batch r h = rw h

set_done_single :
    (id ttl now : ℕ) (s : JobState) (r : Store)
    → s.batch_id ≡ none
    → Agrees s (r.jobs id)
    → Leaves id r (set_done id ttl (some s) now r).0
unfolding set_done
set_done_single id ttl now s r h a = rw h (record {
  inflight = ground arith;
  others = λ j e. ground arith;
  slots = λ b. ground arith;
  loads = λ f. ground arith;
  pages = λ b batch. ground arith;
})

-- `set_done` gives back the slot, the load count and the batch's page of a job that was in flight,
-- and nothing of one that was not, called with no snapshot or with one that names the backend, the
-- batch and the load field that are stored.
pub set_done-Leaves :
    (id ttl : ℕ) (given : Option JobState) (now : ℕ) (r : Store)
    → ((s : JobState) → given ≡ some s → Agrees s (r.jobs id))
    → Leaves id r (set_done id ttl given now r).0
set_done-Leaves id ttl none now r a = set_done-none-Leaves id ttl now r
set_done-Leaves id ttl (some s) now r a = elim (Option-cases s.batch_id) [
  | inl e ↦ set_done_single id ttl now s r e (a s refl)
  | inr (batch, e) ↦
      subst (λ t. Leaves id r t.0) (sym (set_done_page id ttl now s batch r e))
        (set_done-none-Leaves id ttl now r)
]

pub set_failed-Leaves :
    (id : ℕ) (error : Text) (ttl now : ℕ) (r : Store)
    → Leaves id r (set_failed id error ttl now r).0
unfolding set_failed
set_failed-Leaves id error ttl now r = record {
  inflight = ground arith;
  others = λ j e. ground arith;
  slots = λ b. ground arith;
  loads = λ f. ground arith;
  pages = λ b batch. ground arith;
}

pub release_and_requeue-Leaves :
    (id score ttl delay : ℕ) (avoid_id : Option ℕ) (now : ℕ) (r : Store)
    → Leaves id r (release_and_requeue id score ttl delay avoid_id now r)
unfolding release_and_requeue take_off_engine
release_and_requeue-Leaves id score ttl delay avoid_id now r = record {
  inflight = ground arith;
  others = λ j e. ground arith;
  slots = λ b. ground arith;
  loads = λ f. ground arith;
  pages = λ b batch. ground arith;
}
