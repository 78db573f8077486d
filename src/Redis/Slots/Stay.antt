-- ===== src/Redis/Slots/Stay.antt =====
-- Operations of app/services/redis_jobs.py that move no job into or out of the in-flight set.
use tuzka_as_a_service.Prelude.{
  ℕ, suc, ◌≡◌, refl, sym, ◌∙◌, ap, Bool, true, false, ◌&&◌, Option, Text, arith, member, holds_id,
  text_eq, or_else,
}
use tuzka_as_a_service.Prelude.Int.{ℤ, pos}
use tuzka_as_a_service.Redis.State.{JobState, Hash, absent, partial, whole, Store}
use tuzka_as_a_service.Redis.Queue.{job_load_field}
use tuzka_as_a_service.Redis.Slots.Tally.{
  tally, tally_cong, holds, held, on_backend, of_field, page_on, IsCounted,
}

-- What a job in flight holds: its backend, its batch and its load field.
pub data Hold : Type 0 where
  nothing : Hold
  slot : Option ℕ → Option ℕ → Text → Hold

abbrev pub hold_of : Hash → Hold
hold_of absent = nothing
hold_of (partial m) = nothing
hold_of (whole s) = slot s.backend_id s.batch_id (job_load_field s)

abbrev hold_on : ℕ → Hold → Bool
hold_on b nothing = false
hold_on b (slot backend batch field) = holds_id backend b

abbrev hold_field : Text → Hold → Bool
hold_field f nothing = false
hold_field f (slot backend batch field) = text_eq field f

abbrev hold_page : ℕ → ℕ → Hold → Bool
hold_page b p nothing = false
hold_page b p (slot backend batch field) = holds_id backend b && holds_id batch p

on_backend_lem : (b : ℕ) (h : Hash) → holds (on_backend b) h ≡ hold_on b (hold_of h)
on_backend_lem b absent = refl
on_backend_lem b (partial m) = refl
on_backend_lem b (whole s) = refl

of_field_lem : (f : Text) (h : Hash) → holds (of_field f) h ≡ hold_field f (hold_of h)
of_field_lem f absent = refl
of_field_lem f (partial m) = refl
of_field_lem f (whole s) = refl

page_on_lem : (b p : ℕ) (h : Hash) → holds (page_on b p) h ≡ hold_page b p (hold_of h)
page_on_lem b p absent = refl
page_on_lem b p (partial m) = refl
page_on_lem b p (whole s) = refl

-- From `r` to `t` the in-flight set, its counters and what its jobs hold are the same.
pub record Stays (r t : Store) : Type 0 where
  pub inflight : t.inflight ≡ r.inflight
  pub slots : t.backend_inflight ≡ r.backend_inflight
  pub loads : t.load_inflight ≡ r.load_inflight
  pub pages : t.backend_batches ≡ r.backend_batches
  pub same : (j : ℕ) → member j r.inflight ≡ true → hold_of (t.jobs j) ≡ hold_of (r.jobs j)

pub Stays-refl : (r : Store) → Stays r r
Stays-refl r = record {
  inflight = refl;
  slots = refl;
  loads = refl;
  pages = refl;
  same = λ j m. refl;
}

pub Stays-trans : (r s t : Store) → Stays r s → Stays s t → Stays r t
Stays-trans r s t a b = record {
  inflight = b.inflight ∙ a.inflight;
  slots = b.slots ∙ a.slots;
  loads = b.loads ∙ a.loads;
  pages = b.pages ∙ a.pages;
  same = λ j m. b.same j (ap (member j) a.inflight ∙ m) ∙ a.same j m;
}

held_same :
    (p : JobState → Bool) (q : Hold → Bool) (r t : Store)
    → ((h : Hash) → holds p h ≡ q (hold_of h))
    → Stays r t
    → held p t ≡ held p r
held_same p q r t e k =
    ap (tally (λ id. holds p (t.jobs id))) k.inflight
    ∙ tally_cong _ _ r.inflight (λ j m. e (t.jobs j) ∙ ap q (k.same j m) ∙ sym (e (r.jobs j)))

pub Stays-IsCounted : (r t : Store) → Stays r t → IsCounted r → IsCounted t
Stays-IsCounted r t k c = record {
  distinct = ground (arith, k.inflight, c.distinct);
  slots = λ b. cc (
    ap (λ (m : ℕ → ℤ). m (suc b)) k.slots,
    c.slots b,
    held_same (on_backend (suc b)) (hold_on (suc b)) r t (on_backend_lem (suc b)) k,
  );
  loads = λ f. cc (
    ap (λ (m : Text → ℤ). m f) k.loads,
    c.loads f,
    held_same (of_field f) (hold_field f) r t (of_field_lem f) k,
  );
  pages = λ b p. cc (
    ap (λ (m : ℕ → ℕ → Option ℤ). or_else (m (suc b) p) (pos 0)) k.pages,
    c.pages b p,
    held_same (page_on (suc b) p) (hold_page (suc b) p) r t (page_on_lem (suc b) p) k,
  );
}
