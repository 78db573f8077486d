-- ===== src/Redis/Slots/Tally.antt =====
-- Counting the jobs of the in-flight set, and what the counters have to agree with.
use tuzka_as_a_service.Prelude.{
  ℕ, suc, ◌≡◌, refl, Bool, true, false, ◌&&◌, List, [], ◌∷◌, Text, arith, ◌==◌, if◌then◌else◌,
  member, srem, IsDistinct, member-srem, srem_absent, holds_id, or_else, text_eq,
}
use tuzka_as_a_service.Prelude.Int.{pos}
use tuzka_as_a_service.Redis.State.{JobState, Hash, absent, partial, whole, Store}
use tuzka_as_a_service.Redis.Queue.{job_load_field}

abbrev pub tally : (ℕ → Bool) → List ℕ → ℕ
tally w [] = 0
tally w (x ∷ xs) = let rest = tally w xs in if w x then suc rest else rest

pub tally_cong :
    (w w' : ℕ → Bool) (xs : List ℕ)
    → ((j : ℕ) → member j xs ≡ true → w j ≡ w' j)
    → tally w xs ≡ tally w' xs
tally_cong w w' [] h = refl
tally_cong w w' (x ∷ xs) h =
    ground (arith, h x (ground arith), tally_cong w w' xs (λ j m. h j (ground arith)))

pub tally-srem :
    (w : ℕ → Bool) (a : ℕ) (xs : List ℕ)
    → IsDistinct xs
    → tally w xs ≡ (if member a xs && w a then suc (tally w (srem a xs)) else tally w (srem a xs))
tally-srem w a [] d = refl
tally-srem w a (x ∷ xs) d = ground (arith, tally-srem w a xs d.1, srem_absent a xs)

-- Whether the hash is a whole job's with the property.
abbrev pub holds : (JobState → Bool) → Hash → Bool
holds p absent = false
holds p (partial m) = false
holds p (whole s) = p s

-- How many jobs in flight have the property.
abbrev pub held : (JobState → Bool) → Store → ℕ
held p r = tally (λ id. holds p (r.jobs id)) r.inflight

abbrev pub on_backend : ℕ → JobState → Bool
on_backend b s = holds_id s.backend_id b

abbrev pub of_field : Text → JobState → Bool
of_field f s = text_eq (job_load_field s) f

abbrev pub page_on : ℕ → ℕ → JobState → Bool
page_on b batch s = holds_id s.backend_id b && holds_id s.batch_id batch

-- The counters agree with the in-flight set. Backend ids start at 1.
pub record IsCounted (r : Store) : Type 0 where
  pub distinct : IsDistinct r.inflight
  pub slots : (b : ℕ) → r.backend_inflight (suc b) ≡ pos (held (on_backend (suc b)) r)
  pub loads : (f : Text) → r.load_inflight f ≡ pos (held (of_field f) r)
  pub pages :
      (b batch : ℕ)
      → or_else (r.backend_batches (suc b) batch) (pos 0) ≡ pos (held (page_on (suc b) batch) r)

-- What `held` is after a job left the set and no other job's hash changed.
pub held_left :
    (p : JobState → Bool) (id : ℕ) (r t : Store)
    → IsDistinct r.inflight
    → t.inflight ≡ srem id r.inflight
    → ((j : ℕ) → (id == j) ≡ false → t.jobs j ≡ r.jobs j)
    → held p r ≡ (if member id r.inflight && holds p (r.jobs id) then suc (held p t) else held p t)
held_left p id r t d e others = ground (
  arith,
  tally-srem (λ j. holds p (r.jobs j)) id r.inflight d,
  tally_cong (λ j. holds p (r.jobs j)) (λ j. holds p (t.jobs j)) (srem id r.inflight)
      (λ j m. ground (arith, others j, member-srem id j r.inflight)),
)
