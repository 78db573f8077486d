-- ===== src/Dispatch/Allocate.antt =====
-- `allocate_scored` of app/workers/submit/steps.py. A slot is named by its place in the list.
use tuzka_as_a_service.Prelude.{
  ℕ, zero, suc, ◌+◌, ◌-◌, ◌%◌, Bool, false, ◌&&◌, ◌||◌, not, Option, none, some, List, [], ◌∷◌, ltb,
  leb, member, keep, all, length, least, update,
}
use tuzka_as_a_service.Prelude.Int.{ℤ, pos, ◌+ℤ◌, ltb_ℤ}
use tuzka_as_a_service.Dispatch.Number.{Number}
use tuzka_as_a_service.Dispatch.Types.{BackendSlot, PendingJob, can_serve, expected_finish}

abbrev pub Numbered : Type 0
Numbered = ℕ × BackendSlot

abbrev pub number_from : ℕ → List BackendSlot → List Numbered
number_from i [] = []
number_from i (s ∷ slots) = (i, s) ∷ number_from (i + 1) slots

-- `slot.batches.get(job.batch_id, 0) > 0` for a job of a batch.
abbrev pub runs_batch : Option ℕ → BackendSlot → Bool
runs_batch none s = false
runs_batch (some batch) s = ltb_ℤ (pos 0) (s.batches batch)

abbrev enter_page : Option ℕ → (ℕ → ℤ) → ℕ → ℤ
enter_page none batches = batches
enter_page (some batch) batches = update batch (batches batch +ℤ pos 1) batches

-- What an assignment does to its slot.
abbrev pub occupy : Option ℕ → BackendSlot → BackendSlot
occupy batch s = record s {
  free = s.free - 1;
  assigned = s.assigned + 1;
  batches = enter_page batch s.batches;
}

abbrev pub occupy_at : ℕ → Option ℕ → List BackendSlot → List BackendSlot
occupy_at i batch [] = []
occupy_at zero batch (s ∷ slots) = occupy batch s ∷ slots
occupy_at (suc i) batch (s ∷ slots) = s ∷ occupy_at i batch slots

module _ (N : Number) (spp : ℕ → List ℕ → N.Val) (tolerance : N.Val) where
  open N use {Val, of_nat, times, plus, le}

  abbrev pub finish : PendingJob N → Numbered → Val
  finish job (i, s) = expected_finish N s job (spp s.backend.id job.domain)

  abbrev pub serving : List BackendSlot → PendingJob N → List Numbered
  serving slots job = keep (λ n. can_serve N n.1 job) (number_from 0 slots)

  abbrev pub avoided : PendingJob N → Numbered → Bool
  avoided job n = member n.1.backend.id job.avoid

  -- `candidates`.
  abbrev pub candidates : List BackendSlot → PendingJob N → List Numbered
  candidates slots job =
      let allow_avoided = all (avoided job) (serving slots job) in
      keep (λ n. ltb 0 n.1.free && (allow_avoided || not (avoided job n))) (serving slots job)

  abbrev pub ties : PendingJob N → Val → List Numbered → List Numbered
  ties job best = keep (λ n. le (finish job n) best && le best (finish job n))

  abbrev pub near : PendingJob N → Val → List Numbered → List Numbered
  near job best = keep (λ n. le (finish job n) (times best (plus (of_nat 1) tolerance)))

  abbrev pub affine : PendingJob N → Val → List Numbered → List Numbered
  affine job best cands = keep (λ n. runs_batch job.batch_id n.1) (near job best cands)

  -- `pool` of the candidates, given the affine ones.
  unfoldable pub pool_of : PendingJob N → Val → List Numbered → List Numbered → List Numbered
  pool_of job best cands [] = ties job best cands
  pool_of job best cands (a ∷ rest) =
      ties job (finish job (least le (finish job) a rest)) (a ∷ rest)

  -- `(order - start) % len(slots)`; `start` is below the length.
  abbrev pub turn : ℕ → ℕ → Numbered → ℕ
  turn count start (i, s) = (i + count - start) % count

  unfoldable pub rotate_pick : ℕ → ℕ → List Numbered → Option Numbered
  rotate_pick count start [] = none
  rotate_pick count start (n ∷ rest) = some (least leb (turn count start) n rest)

  unfoldable pub choose_among : ℕ → ℕ → PendingJob N → List Numbered → Option Numbered
  unfolding pool_of rotate_pick
  choose_among count start job [] = none
  choose_among count start job (c ∷ cands) =
      let best = finish job (least le (finish job) c cands) in
      rotate_pick count start (pool_of job best (c ∷ cands) (affine job best (c ∷ cands)))

  -- The slot that one job gets, if any.
  unfoldable pub choose : List BackendSlot → ℕ → PendingJob N → Option Numbered
  unfolding choose_among
  choose slots start job = choose_among (length slots) start job (candidates slots job)

  -- The loop over the jobs: the slots afterwards, and each placed job with its slot's place.
  unfoldable pub allocate_loop :
      List (PendingJob N) → List BackendSlot → ℕ → List BackendSlot × List (PendingJob N × ℕ)
  allocate_loop [] slots start = (slots, [])
  allocate_loop (job ∷ jobs) slots start = elim (choose slots start job) [
    | none ↦ allocate_loop jobs slots start
    | some (i, s) ↦
        let (slots', placed) =
          allocate_loop jobs (occupy_at i job.batch_id slots) ((i + 1) % length slots) in
        (slots', (job, i) ∷ placed)
  ]

  -- `allocate_scored`.
  unfoldable pub allocate_scored :
      List BackendSlot → List (PendingJob N) → List BackendSlot × List (PendingJob N × ℕ)
  unfolding allocate_loop
  allocate_scored slots jobs = allocate_loop jobs slots 0
