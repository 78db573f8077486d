-- ===== src/Dispatch/Capacity.antt =====
-- The slots before and after `allocate_scored` (app/workers/submit/steps.py).
use tuzka_as_a_service.Prelude.{
  ℕ, zero, suc, ◌+◌, ◌%◌, ◌<◌, ◌≡◌, refl, sym, ◌∙◌, ap, subst, true, Option, none, some, List, [],
  ◌∷◌, ◌==◌, if◌then◌else◌, length, ◌⊎◌, inl, inr, arith, In, Option-cases, All,
}
use tuzka_as_a_service.Dispatch.Number.{Number}
use tuzka_as_a_service.Dispatch.Types.{Domains, BackendSlot, PendingJob, can_serve, serves}
use tuzka_as_a_service.Dispatch.Allocate.{
  Numbered, number_from, occupy_at, choose, allocate_loop, allocate_scored,
}
use tuzka_as_a_service.Dispatch.Choice.{choose-IsPick, candidates_lem}

abbrev pub slot_at : List BackendSlot → ℕ → Option BackendSlot
slot_at [] i = none
slot_at (s ∷ slots) zero = some s
slot_at (s ∷ slots) (suc i) = slot_at slots i

abbrev pub free_at : List BackendSlot → ℕ → ℕ
free_at slots i = elim (slot_at slots i) [ none ↦ 0 | some s ↦ s.free ]

abbrev pub assigned_at : List BackendSlot → ℕ → ℕ
assigned_at slots i = elim (slot_at slots i) [ none ↦ 0 | some s ↦ s.assigned ]

abbrev pub domains_at : List BackendSlot → ℕ → Domains
domains_at slots i = elim (slot_at slots i) [ none ↦ [] | some s ↦ s.domains ]

number_from-slot_at :
    (k i : ℕ) (s : BackendSlot) (slots : List BackendSlot)
    → In (i, s) (number_from k slots)
    → (j : ℕ) × (i ≡ k + j) × (slot_at slots j ≡ some s)
number_from-slot_at k i s [] h = absurd h
number_from-slot_at k i s (t ∷ slots) (inl q) =
    (0, omega (arith, ap (λ (n : Numbered). n.0) q), ap (λ (n : Numbered). some n.1) (sym q))
number_from-slot_at k i s (t ∷ slots) (inr m) =
    let (j, e, at) = number_from-slot_at (k + 1) i s slots m in (suc j, omega arith, at)

free-occupy_at :
    (i j : ℕ) (batch : Option ℕ) (slots : List BackendSlot)
    → 0 < free_at slots i
    → (free_at slots j ≡ free_at (occupy_at i batch slots) j + (if i == j then 1 else 0))
      × (assigned_at (occupy_at i batch slots) j ≡ assigned_at slots j + (if i == j then 1 else 0))
      × (domains_at (occupy_at i batch slots) j ≡ domains_at slots j)
free-occupy_at i j batch [] h = absurd (omega arith)
free-occupy_at zero zero batch (s ∷ slots) h = ground arith
free-occupy_at zero (suc j) batch (s ∷ slots) h = ground arith
free-occupy_at (suc i) zero batch (s ∷ slots) h = ground arith
free-occupy_at (suc i) (suc j) batch (s ∷ slots) h = ground (arith, free-occupy_at i j batch slots)

-- How many of the placed jobs a place got.
abbrev pub placed_at {ℓ} : {A : Type ℓ} → ℕ → List (A × ℕ) → ℕ
placed_at j [] = 0
placed_at j ((job, i) ∷ placed) = placed_at j placed + (if i == j then 1 else 0)

module _ (N : Number) (spp : ℕ → List ℕ → N.Val) (tolerance : N.Val) where
  chosen_at :
      (slots : List BackendSlot) (start : ℕ) (job : PendingJob N) (i : ℕ) (s : BackendSlot)
      → choose N spp tolerance slots start job ≡ some (i, s)
      → (slot_at slots i ≡ some s) × (0 < s.free) × (can_serve N s job ≡ true)
  chosen_at slots start job i s h =
      let (m, serves_it, room, why) =
        candidates_lem N spp tolerance slots job (i, s)
          (choose-IsPick N spp tolerance slots start job (i, s) h).candidate in
      let (j, e, at) = number_from-slot_at 0 i s slots m in
      (subst (λ k. slot_at slots k ≡ some s) (omega arith) at, room, serves_it)

  -- Of every slot: what it has left and what it was given make up what it had, its count of
  -- assigned jobs grew by what it was given, and what it serves did not change.
  pub record IsFilled (placed : List (PendingJob N × ℕ)) (before after : List BackendSlot) (j : ℕ)
      : Type 0 where
    pub free : free_at before j ≡ free_at after j + placed_at j placed
    pub assigned : assigned_at after j ≡ assigned_at before j + placed_at j placed
    pub domains : domains_at after j ≡ domains_at before j

  fill_one :
      (slots after : List BackendSlot) (placed : List (PendingJob N × ℕ)) (job : PendingJob N)
      (i j : ℕ) (s : BackendSlot)
      → slot_at slots i ≡ some s
      → 0 < s.free
      → IsFilled placed (occupy_at i job.batch_id slots) after j
      → IsFilled ((job, i) ∷ placed) slots after j
  fill_one slots after placed job i j s at room f =
      let k = free-occupy_at i j job.batch_id slots (ground arith) in
      record {
        free = omega (arith, f.free, k.0);
        assigned = omega (arith, f.assigned, k.1);
        domains = f.domains ∙ k.2;
      }

  allocate_loop-IsFilled :
      (jobs : List (PendingJob N)) (slots : List BackendSlot) (start j : ℕ)
      → IsFilled
          (allocate_loop N spp tolerance jobs slots start).1
          slots
          (allocate_loop N spp tolerance jobs slots start).0
          j
  unfolding allocate_loop
  allocate_loop-IsFilled [] slots start j = record {
    free = omega arith;
    assigned = omega arith;
    domains = refl;
  }
  allocate_loop-IsFilled (job ∷ jobs) slots start j =
      elim (Option-cases (choose N spp tolerance slots start job)) [
        | inl e ↦ rw (e, allocate_loop) (allocate_loop-IsFilled jobs slots start j)
        | inr ((i, s), e) ↦
            let (at, room, can) = chosen_at slots start job i s e in
            rw (e, allocate_loop)
              (fill_one slots _ _ job i j s at room (
                allocate_loop-IsFilled jobs (occupy_at i job.batch_id slots)
                  ((i + 1) % length slots) j))
      ]

  -- No slot is given more jobs than it had free places: of every slot, what it has left and what
  -- it was given make up what it had free, its count of assigned jobs grew by what it was given,
  -- and what it serves did not change.
  pub allocate_scored-IsFilled :
      (slots : List BackendSlot) (jobs : List (PendingJob N)) (j : ℕ)
      → IsFilled
          (allocate_scored N spp tolerance slots jobs).1
          slots
          (allocate_scored N spp tolerance slots jobs).0
          j
  unfolding allocate_scored
  allocate_scored-IsFilled slots jobs j = allocate_loop-IsFilled jobs slots 0 j

  abbrev pub ServedBy : List BackendSlot → PendingJob N × ℕ → Type 0
  ServedBy slots (job, i) = serves (domains_at slots i) job.domain job.outputs ≡ true

  -- The placed jobs, in the order of the queue, and each at most as often as it was queued.
  abbrev pub InOrder : List (PendingJob N × ℕ) → List (PendingJob N) → Type 0
  InOrder [] jobs = Unit
  InOrder (p ∷ placed) [] = ⊥
  InOrder (p ∷ placed) (job ∷ jobs) =
      ((p.0 ≡ job) × InOrder placed jobs) ⊎ InOrder (p ∷ placed) jobs

  All-map :
      (P Q : PendingJob N × ℕ → Type 0) (xs : List (PendingJob N × ℕ))
      → ((x : PendingJob N × ℕ) → P x → Q x)
      → All P xs
      → All Q xs
  All-map P Q [] f h = tt
  All-map P Q (x ∷ xs) f h = (f x h.0, All-map P Q xs f h.1)

  InOrder-skip :
      (placed : List (PendingJob N × ℕ)) (job : PendingJob N) (jobs : List (PendingJob N))
      → InOrder placed jobs
      → InOrder placed (job ∷ jobs)
  InOrder-skip [] job jobs h = tt
  InOrder-skip (p ∷ placed) job jobs h = inr h

  allocate_loop_placed :
      (jobs : List (PendingJob N)) (slots : List BackendSlot) (start : ℕ)
      → All (ServedBy slots) (allocate_loop N spp tolerance jobs slots start).1
        × InOrder (allocate_loop N spp tolerance jobs slots start).1 jobs
  unfolding allocate_loop
  allocate_loop_placed [] slots start = (tt, tt)
  allocate_loop_placed (job ∷ jobs) slots start =
      elim (Option-cases (choose N spp tolerance slots start job)) [
        | inl e ↦
            let (s, o) = allocate_loop_placed jobs slots start in
            rw (e, allocate_loop) (s, InOrder-skip _ job jobs o)
        | inr ((i, t), e) ↦
            let (at, room, can) = chosen_at slots start job i t e in
            let slots' = occupy_at i job.batch_id slots in
            let (s, o) = allocate_loop_placed jobs slots' ((i + 1) % length slots) in
            rw (e, allocate_loop)
              (
                (
                  ground (arith, at, can),
                  All-map (ServedBy slots') (ServedBy slots) _ (kept i t at room) s,
                ),
                inl (refl, o),
              )
      ]
    where
      kept :
          (i : ℕ) (t : BackendSlot)
          → slot_at slots i ≡ some t
          → 0 < t.free
          → (x : PendingJob N × ℕ) → ServedBy (occupy_at i job.batch_id slots) x
          → ServedBy slots x
      kept i t at room (u, k) h =
          subst (λ d. serves d u.domain u.outputs ≡ true)
            (free-occupy_at i k job.batch_id slots (ground arith)).2 h

  -- Every placed job stands on a slot that serves its domain with all its outputs, and the placed
  -- jobs are queued jobs, in the order of the queue, each at most as often as it was queued.
  pub allocate_scored_placed :
      (slots : List BackendSlot) (jobs : List (PendingJob N))
      → All (ServedBy slots) (allocate_scored N spp tolerance slots jobs).1
        × InOrder (allocate_scored N spp tolerance slots jobs).1 jobs
  unfolding allocate_scored
  allocate_scored_placed slots jobs = allocate_loop_placed jobs slots 0
