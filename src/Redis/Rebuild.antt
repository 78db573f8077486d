-- ===== src/Redis/Rebuild.antt =====
-- The recounts of app/services/redis_jobs.py that repair counters left off by a crash:
-- `rebuild_load_counters` and `rebuild_backend_counters` with its Lua script.
use tuzka_as_a_service.Prelude.{
  ℕ, zero, suc, ◌≤◌, ◌≡◌, refl, Bool, true, false, ◌&&◌, ◌||◌, Option, none, some, List, [], ◌∷◌,
  ◌++◌, arith, if◌then◌else◌, member, sadd, holds_id, IsDistinct, or_else, Text, text_eq, update,
  ap, Bool-cases, inl, inr, ◌+◌, text_eq_iff,
}
use tuzka_as_a_service.Prelude.Int.{ℤ, pos, ltb_ℤ}
use tuzka_as_a_service.Redis.ZSet.{ZSet}
use tuzka_as_a_service.Redis.State.{Hash, absent, partial, whole, Store}
use tuzka_as_a_service.Redis.Queue.{job_load_field}
use tuzka_as_a_service.Redis.Harvest.{ids_of}
use tuzka_as_a_service.Redis.Slots.{
  tally, tally_cong, holds, held, on_backend, of_field, page_on, IsCounted,
}

abbrev queued_of_levels : (ℕ → ZSet) → List ℕ → List ℕ
queued_of_levels pending [] = []
queued_of_levels pending (p ∷ levels) = ids_of (pending p) ++ queued_of_levels pending levels

-- `queued_ids`: every pending queue of a registered level, and the delayed retries.
abbrev pub queued_ids : Store → List ℕ
queued_ids r = queued_of_levels r.pending r.levels ++ ids_of r.delayed

-- `count`: the number of jobs of each load field; a hash that is not a whole job's is passed over.
abbrev count_job : Hash → (Text → ℕ) → Text → ℕ
count_job absent counts = counts
count_job (partial m) counts = counts
count_job (whole s) counts =
    let field = job_load_field s in λ f. if text_eq field f then counts field + 1 else counts f

unfoldable count : Store → (Text → ℕ) → List ℕ → Text → ℕ
count r counts [] = counts
count r counts (id ∷ job_ids) = count r (count_job (r.jobs id) counts) job_ids

-- `rebuild_load_counters`. A field that is not in the new hash reads as 0.
unfoldable pub rebuild_load_counters : Store → Store
unfolding count
rebuild_load_counters r =
    let queued = count r (λ f. 0) (queued_ids r) in
    let inflight = count r (λ f. 0) r.inflight in
    record r { load_queued = λ f. pos (queued f); load_inflight = λ f. pos (inflight f) }

-- HMGET of a hash's `backend_id` and `batch_id`.
abbrev backend_field : Hash → Option ℕ
backend_field absent = none
backend_field (partial m) = m.backend_id
backend_field (whole s) = s.backend_id

abbrev batch_field : Hash → Option ℕ
batch_field absent = none
batch_field (partial m) = none
batch_field (whole s) = s.batch_id

-- The script's tables `inflight`, with its keys, and `batches`. A count that is not there is 0.
record Recount : Type 0 where
  pub backends : List ℕ
  pub inflight : ℕ → ℕ
  pub batches : ℕ → ℕ → ℕ

abbrev count_page : ℕ → Option ℕ → (ℕ → ℕ → ℕ) → ℕ → ℕ → ℕ
count_page b none batches = batches
count_page b (some p) batches = update b (update p (batches b p + 1) (batches b)) batches

abbrev count_on : Option ℕ → Option ℕ → Recount → Recount
count_on none batch t = t
count_on (some b) batch t = record {
  backends = sadd b t.backends;
  inflight = update b (t.inflight b + 1) t.inflight;
  batches = count_page b batch t.batches;
}

unfoldable count_jobs : Store → List ℕ → Recount → Recount
count_jobs r [] t = t
count_jobs r (id ∷ ids) t =
    count_jobs r ids (count_on (backend_field (r.jobs id)) (batch_field (r.jobs id)) t)

-- The backends with counter keys but without a job in flight.
abbrev add_idle : List ℕ → List ℕ → List ℕ
add_idle [] backends = backends
add_idle (b ∷ backend_ids) backends = add_idle backend_ids (sadd b backends)

abbrev unless_zero : ℕ → Option ℤ
unless_zero zero = none
unless_zero (suc n) = some (pos (suc n))

abbrev differ : ℤ → ℤ → Bool
differ a b = ltb_ℤ a b || ltb_ℤ b a

-- The script's last loop: one backend's counters after another are replaced.
unfoldable write_backends : Recount → List ℕ → Store → ℕ → Store × ℕ
write_backends t [] r fixed = (r, fixed)
write_backends t (b ∷ backends) r fixed =
    let wrong = differ (r.backend_inflight b) (pos (t.inflight b)) in
    write_backends t backends
      (record r {
        backend_inflight = update b (pos (t.inflight b)) r.backend_inflight;
        backend_batches = update b (λ p. unless_zero (t.batches b p)) r.backend_batches;
      })
      (if wrong then fixed + 1 else fixed)

abbrev nothing_counted : Recount
nothing_counted = record { backends = []; inflight = λ b. 0; batches = λ b p. 0 }

-- `rebuild_backend_counters` for the backends whose counter keys were found, and how many were
-- off.
unfoldable pub rebuild_backend_counters : List ℕ → Store → Store × ℕ
unfolding count_jobs write_backends
rebuild_backend_counters backend_ids r =
    let t = count_jobs r r.inflight nothing_counted in
    write_backends t (add_idle backend_ids t.backends) r 0

abbrev pub rebuild : List ℕ → Store → Store
rebuild backend_ids r = rebuild_load_counters (rebuild_backend_counters backend_ids r).0

abbrev pub is_whole : Hash → Bool
is_whole absent = false
is_whole (partial m) = false
is_whole (whole s) = true

abbrev runs_on : Store → ℕ → ℕ → Bool
runs_on r b id = holds_id (backend_field (r.jobs id)) b

abbrev pages_on : Store → ℕ → ℕ → ℕ → Bool
pages_on r b p id = runs_on r b id && holds_id (batch_field (r.jobs id)) p

count_job_one :
    (h : Hash) (counts : Text → ℕ) (f : Text)
    → count_job h counts f ≡ (if holds (of_field f) h then suc (counts f) else counts f)
count_job_one absent counts f = refl
count_job_one (partial m) counts f = refl
count_job_one (whole s) counts f = elim (Bool-cases (text_eq (job_load_field s) f)) [
  | inl q ↦
      let e : job_load_field s ≡ f = (text_eq_iff (job_load_field s) f).0 q in
      rw q (rw e (omega arith))
  | inr q ↦ rw q refl
]

count-tally :
    (r : Store) (ids : List ℕ) (counts : Text → ℕ) (f : Text)
    → count r counts ids f ≡ counts f + tally (λ id. holds (of_field f) (r.jobs id)) ids
unfolding count
count-tally r [] counts f = omega arith
count-tally r (id ∷ ids) counts f =
    ground (
      arith,
      count-tally r ids (count_job (r.jobs id) counts) f,
      count_job_one (r.jobs id) counts f,
    )

count_on_one :
    (backend batch : Option ℕ) (t : Recount) (b p : ℕ)
    → ((count_on backend batch t).inflight b
        ≡ (if holds_id backend b then suc (t.inflight b) else t.inflight b))
      × ((count_on backend batch t).batches b p
          ≡ (if holds_id backend b && holds_id batch p then suc (t.batches b p) else t.batches b p))
      × (member b (count_on backend batch t).backends ≡ (member b t.backends || holds_id backend b))
count_on_one none batch t b p = (refl, refl, ground arith)
count_on_one (some c) none t b p = (ground arith, ground arith, ground arith)
count_on_one (some c) (some q) t b p = (ground arith, ground arith, ground arith)

-- What the script's first loop adds up.
count_jobs-tally :
    (r : Store) (ids : List ℕ) (t : Recount) (b p : ℕ)
    → let u = count_jobs r ids t in
      (u.inflight b ≡ t.inflight b + tally (runs_on r b) ids)
      × (u.batches b p ≡ t.batches b p + tally (pages_on r b p) ids)
      × (member b u.backends ≡ false
          → (member b t.backends ≡ false) × (tally (runs_on r b) ids ≡ 0))
unfolding count_jobs
count_jobs-tally r [] t b p = (omega arith, omega arith, λ h. (h, refl))
count_jobs-tally r (id ∷ ids) t b p =
    let u = count_on (backend_field (r.jobs id)) (batch_field (r.jobs id)) t in
    let (i, k, m) = count_jobs-tally r ids u b p in
    let (one, page, seen) =
      count_on_one (backend_field (r.jobs id)) (batch_field (r.jobs id)) t b p in
    (
      ground (arith, i, one),
      ground (arith, k, page),
      λ h. let (a, c) = m h in (ground (arith, a, seen), ground (arith, a, c, seen)),
    )

add_idle_missing :
    (backend_ids backends : List ℕ) (b : ℕ)
    → member b (add_idle backend_ids backends) ≡ false
    → (member b backends ≡ false) × (member b backend_ids ≡ false)
add_idle_missing [] backends b h = (h, refl)
add_idle_missing (c ∷ backend_ids) backends b h =
    let (p, q) = add_idle_missing backend_ids (sadd c backends) b h in
    (ground (arith, p, q), ground (arith, p, q))

-- The script's last loop replaces the counters of the backends it goes over, and nothing else.
write_backends_lem :
    (t : Recount) (backends : List ℕ) (r : Store) (fixed b p : ℕ)
    → let v = (write_backends t backends r fixed).0 in
      (v.inflight ≡ r.inflight)
      × (v.jobs ≡ r.jobs)
      × (v.backend_inflight b
          ≡ (if member b backends then pos (t.inflight b) else r.backend_inflight b))
      × (v.backend_batches b p
          ≡ (if member b backends then unless_zero (t.batches b p) else r.backend_batches b p))
unfolding write_backends
write_backends_lem t [] r fixed b p = (refl, refl, refl, refl)
write_backends_lem t (c ∷ backends) r fixed b p =
    let wrong = differ (r.backend_inflight c) (pos (t.inflight c)) in
    let w = record r {
      backend_inflight = update c (pos (t.inflight c)) r.backend_inflight;
      backend_batches = update c (λ q. unless_zero (t.batches c q)) r.backend_batches;
    } in
    let (i, j, s, u) = write_backends_lem t backends w (if wrong then fixed + 1 else fixed) b p in
    (i, j, ground (arith, s), ground (arith, u))

fewer : (r : Store) (b p : ℕ) (ids : List ℕ) → tally (pages_on r b p) ids ≤ tally (runs_on r b) ids
fewer r b p [] = omega arith
fewer r b p (id ∷ ids) = ground (arith, fewer r b p ids)

zero_or : (n : ℕ) → or_else (unless_zero n) (pos 0) ≡ pos n
zero_or zero = refl
zero_or (suc n) = refl

-- The recount of the backends, when the counters outside the found keys are unset.
backends_recounted :
    (backend_ids : List ℕ) (r : Store) (b p : ℕ)
    → (member b backend_ids ≡ false → r.backend_inflight b ≡ pos 0)
    → (member b backend_ids ≡ false → r.backend_batches b p ≡ none)
    → let v = (rebuild_backend_counters backend_ids r).0 in
      (v.inflight ≡ r.inflight)
      × (v.jobs ≡ r.jobs)
      × (v.backend_inflight b ≡ pos (tally (runs_on r b) r.inflight))
      × (or_else (v.backend_batches b p) (pos 0) ≡ pos (tally (pages_on r b p) r.inflight))
unfolding rebuild_backend_counters
backends_recounted backend_ids r b p u v =
    let t = count_jobs r r.inflight nothing_counted in
    let (i, k, unseen) = count_jobs-tally r r.inflight nothing_counted b p in
    let (same, jobs, slot, page) = write_backends_lem t (add_idle backend_ids t.backends) r 0 b p in
    let few = fewer r b p r.inflight in
    let on : t.inflight b ≡ tally (runs_on r b) r.inflight = omega (arith, i) in
    let paged : t.batches b p ≡ tally (pages_on r b p) r.inflight = omega (arith, k) in
    elim (Bool-cases (member b (add_idle backend_ids t.backends))) [
      | inl m ↦ (
        same,
        jobs,
        rw (slot, m, on) refl,
        rw (page, m, paged) (zero_or (tally (pages_on r b p) r.inflight)),
      )
      | inr m ↦
          let (a, c) = add_idle_missing backend_ids t.backends b m in
          let e : tally (runs_on r b) r.inflight ≡ 0 = (unseen a).1 in
          let g : tally (pages_on r b p) r.inflight ≡ 0 = omega (arith, few, e) in
          (same, jobs, rw (slot, m, u c, e) refl, rw (page, m, v c, g) refl)
    ]

-- Whatever the counters were, the two recounts make them agree with the in-flight set, if the
-- counters outside the found keys are unset, no job in flight lost its hash and no worker changes the
-- keyspace between the recounts' calls.
pub rebuild-IsCounted :
    (backend_ids : List ℕ) (r : Store)
    → IsDistinct r.inflight
    → ((id : ℕ) → member id r.inflight ≡ true → is_whole (r.jobs id) ≡ true)
    → ((b : ℕ) → member b backend_ids ≡ false → r.backend_inflight b ≡ pos 0)
    → ((b p : ℕ) → member b backend_ids ≡ false → r.backend_batches b p ≡ none)
    → IsCounted (rebuild backend_ids r)
unfolding rebuild_load_counters
rebuild-IsCounted backend_ids r d w u v =
    let t = (rebuild_backend_counters backend_ids r).0 in
    let (same, jobs, s0, p0) = backends_recounted backend_ids r 0 0 (u 0) (v 0 0) in
    record {
      distinct = rw same d;
      slots = λ b.
          let (i, j, slot, page) =
            backends_recounted backend_ids r (suc b) 0 (u (suc b)) (v (suc b) 0) in
          rw (i, j, slot)
            (ap pos (
              tally_cong (runs_on r (suc b)) (λ id. holds (on_backend (suc b)) (r.jobs id))
                r.inflight (λ k m. ground (arith, w k m))));
      loads = λ f.
          let n : count t (λ g. 0) t.inflight f ≡ held (of_field f) t =
            omega (arith, count-tally t t.inflight (λ g. 0) f) in
          ap pos n;
      pages = λ b p.
          let (i, j, slot, page) =
            backends_recounted backend_ids r (suc b) p (u (suc b)) (v (suc b) p) in
          rw (i, j, page)
            (ap pos (
              tally_cong (pages_on r (suc b) p) (λ id. holds (page_on (suc b) p) (r.jobs id))
                r.inflight (λ k m. ground (arith, w k m))));
    }
