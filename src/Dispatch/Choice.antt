-- ===== src/Dispatch/Choice.antt =====
-- Which slot `allocate_scored` picks for one job.
use tuzka_as_a_service.Prelude.{
  ℕ, ◌<◌, ◌≡◌, ◌≢◌, refl, sym, subst, Bool, true, false, ◌&&◌, none, some, List, [], ◌∷◌, leb, all,
  length, ◌⊎◌, inl, inr, arith, In, In-keep, keep-In, least, least-In, least-le,
}
use mathlib.Core.Option.{some-injective}
use tuzka_as_a_service.Dispatch.Number.{Number}
use tuzka_as_a_service.Dispatch.Types.{BackendSlot, PendingJob, can_serve}
use tuzka_as_a_service.Dispatch.Allocate.{
  Numbered, number_from, runs_batch, finish, serving, avoided, candidates, near, affine, ties,
  pool_of, rotate_pick, choose_among, choose, turn,
}

module _ (N : Number) (spp : ℕ → List ℕ → N.Val) (tolerance : N.Val) where
  open N use {Val, of_nat, times, plus, le, le_total, le_trans}

  abbrev cost : PendingJob N → Numbered → Val
  cost = finish N spp tolerance

  abbrev within : PendingJob N → Val → Numbered → Bool
  within job best m = le (cost job m) (times best (plus (of_nat 1) tolerance))

  -- The picked slot is a candidate, and `first` one that finishes the job no later than any other.
  -- The pick finishes it as early as `first`, or it runs the job's batch already and finishes
  -- within the tolerance; in that case, and whenever such a candidate is there, it finishes no
  -- later than any candidate of that kind.
  pub record IsPick (job : PendingJob N) (cands : List Numbered) (n : Numbered) : Type 0 where
    pub candidate : In n cands
    pub first : Numbered
    pub first_candidate : In first cands
    pub first_is_first : (m : Numbered) → In m cands → le (cost job first) (cost job m) ≡ true
    pub early_or_affine :
        (le (cost job n) (cost job first) ≡ true)
        ⊎ ((runs_batch job.batch_id n.1 ≡ true)
            × (le (cost job n) (times (cost job first) (plus (of_nat 1) tolerance)) ≡ true))
    pub affinity :
        (m : Numbered)
        → In m cands
        → runs_batch job.batch_id m.1 ≡ true
        → le (cost job m) (times (cost job first) (plus (of_nat 1) tolerance)) ≡ true
        → (runs_batch job.batch_id n.1 ≡ true) × (le (cost job n) (cost job m) ≡ true)

  rotate_pick-In :
      (count start : ℕ) (pool : List Numbered) (n : Numbered)
      → rotate_pick N spp tolerance count start pool ≡ some n
      → In n pool
  unfolding rotate_pick
  rotate_pick-In count start [] n h = cc
  rotate_pick-In count start (p ∷ pool) n h =
      subst (λ m. In m (p ∷ pool)) (some-injective _ _ h)
        (least-In leb (turn N spp tolerance count start) p pool)

  ties-le :
      (job : PendingJob N) (best : Val) (pool : List Numbered) (n : Numbered)
      → In n (ties N spp tolerance job best pool)
      → In n pool × (le (cost job n) best ≡ true)
  ties-le job best pool n h = let (m, e) = In-keep _ n pool h in (m, ground (arith, e))

  near-In :
      (job : PendingJob N) (best : Val) (cands : List Numbered) (n : Numbered)
      → In n (affine N spp tolerance job best cands)
      → In n cands
        × (runs_batch job.batch_id n.1 ≡ true)
        × (le (cost job n) (times best (plus (of_nat 1) tolerance)) ≡ true)
  near-In job best cands n h =
      let (m, e) = In-keep _ n (near N spp tolerance job best cands) h in
      let (k, f) = In-keep _ n cands m in (k, e, f)

  In-affine :
      (job : PendingJob N) (best : Val) (cands : List Numbered) (m : Numbered)
      → In m cands
      → runs_batch job.batch_id m.1 ≡ true
      → within job best m ≡ true
      → In m (affine N spp tolerance job best cands)
  In-affine job best cands m k r l =
      keep-In (λ x. runs_batch job.batch_id x.1) m (near N spp tolerance job best cands)
        (keep-In (within job best) m cands k l) r

  IsPick-from :
      (job : PendingJob N) (c : Numbered) (cands : List Numbered) (aff : List Numbered)
      (n : Numbered)
      → let best = cost job (least le (cost job) c cands) in
        aff ≡ affine N spp tolerance job best (c ∷ cands)
        → In n (pool_of N spp tolerance job best (c ∷ cands) aff)
        → IsPick job (c ∷ cands) n
  unfolding pool_of
  IsPick-from job c cands [] n e h = record {
    candidate = (ties-le job _ (c ∷ cands) n h).0;
    first = least le (cost job) c cands;
    first_candidate = least-In le (cost job) c cands;
    first_is_first = least-le le (cost job) le_total le_trans c cands;
    early_or_affine = inl (ties-le job _ (c ∷ cands) n h).1;
    affinity = λ m k r l. absurd (subst (In m) (sym e) (In-affine job _ (c ∷ cands) m k r l));
  }
  IsPick-from job c cands (a ∷ aff) n e h =
      let best = cost job (least le (cost job) c cands) in
      let (m, tie) = ties-le job (cost job (least le (cost job) a aff)) (a ∷ aff) n h in
      let (k, runs, close) = near-In job best (c ∷ cands) n (subst (In n) e m) in
      record {
        candidate = k;
        first = least le (cost job) c cands;
        first_candidate = least-In le (cost job) c cands;
        first_is_first = least-le le (cost job) le_total le_trans c cands;
        early_or_affine = inr (runs, close);
        affinity = λ x kx r l. (
          runs,
          le_trans _ _ _ tie (
              least-le le (cost job) le_total le_trans a aff x
                (subst (In x) (sym e) (In-affine job best (c ∷ cands) x kx r l))),
        );
      }

  IsPick-among :
      (count start : ℕ) (job : PendingJob N) (cands : List Numbered) (n : Numbered)
      → choose_among N spp tolerance count start job cands ≡ some n
      → IsPick job cands n
  unfolding choose_among
  IsPick-among count start job [] n h = cc
  IsPick-among count start job (c ∷ cands) n h =
      IsPick-from job c cands _ n refl (rotate_pick-In count start _ n h)

  -- The slot that a job gets, for any slots and any place where the rotation stands, is one of the
  -- candidates. It finishes the job no later than every other, or it runs pages of the job's batch
  -- and finishes within the tolerance of the earliest; where there are candidates of that kind, it
  -- is one of them, and none of them finishes earlier.
  pub choose-IsPick :
      (slots : List BackendSlot) (start : ℕ) (job : PendingJob N) (n : Numbered)
      → choose N spp tolerance slots start job ≡ some n
      → IsPick job (candidates N spp tolerance slots job) n
  unfolding choose
  choose-IsPick slots start job n h = IsPick-among (length slots) start job _ n h

  -- A candidate can serve the job and has a free slot, and is a backend that the job avoids only
  -- if the job avoids every backend that serves it.
  pub candidates_lem :
      (slots : List BackendSlot) (job : PendingJob N) (n : Numbered)
      → In n (candidates N spp tolerance slots job)
      → In n (number_from 0 slots)
        × (can_serve N n.1 job ≡ true)
        × (0 < n.1.free)
        × ((avoided N spp tolerance job n ≡ false)
            ⊎ (all (avoided N spp tolerance job) (serving N spp tolerance slots job) ≡ true))
  candidates_lem slots job n h =
      let (m, e) = In-keep _ n (serving N spp tolerance slots job) h in
      let (k, c) = In-keep (λ x. can_serve N x.1 job) n (number_from 0 slots) m in
      (k, c, ground (arith, e), ground (arith, e))

  le_refl : (a : Val) → le a a ≡ true
  le_refl a = elim (le_total a a) [ inl e ↦ e | inr e ↦ e ]

  tie-In :
      (job : PendingJob N) (n : Numbered) (pool : List Numbered)
      → In n pool
      → In n (ties N spp tolerance job (cost job n) pool)
  tie-In job n pool m =
      keep-In (λ x. le (cost job x) (cost job n) && le (cost job n) (cost job x)) n pool m
        (ground (arith, le_refl (cost job n)))

  pool_inhabited :
      (job : PendingJob N) (c : Numbered) (cands aff : List Numbered)
      → let best = cost job (least le (cost job) c cands) in
        (n : Numbered) × In n (pool_of N spp tolerance job best (c ∷ cands) aff)
  unfolding pool_of
  pool_inhabited job c cands [] =
      (least le (cost job) c cands, tie-In job _ (c ∷ cands) (least-In le (cost job) c cands))
  pool_inhabited job c cands (a ∷ aff) =
      (least le (cost job) a aff, tie-In job _ (a ∷ aff) (least-In le (cost job) a aff))

  rotate_pick_some :
      (count start : ℕ) (pool : List Numbered) (n : Numbered)
      → In n pool
      → rotate_pick N spp tolerance count start pool ≢ none
  unfolding rotate_pick
  rotate_pick_some count start [] n m h = m
  rotate_pick_some count start (p ∷ pool) n m h = cc

  choose_among_picks :
      (count start : ℕ) (job : PendingJob N) (cands : List Numbered)
      → choose_among N spp tolerance count start job cands ≡ none
      → cands ≡ []
  unfolding choose_among
  choose_among_picks count start job [] h = refl
  choose_among_picks count start job (c ∷ cands) h =
      let best = cost job (least le (cost job) c cands) in
      let (n, m) = pool_inhabited job c cands (affine N spp tolerance job best (c ∷ cands)) in
      absurd (rotate_pick_some count start _ n m h)

  -- A job is left out only when it has no candidate.
  pub choose-none :
      (slots : List BackendSlot) (start : ℕ) (job : PendingJob N)
      → choose N spp tolerance slots start job ≡ none
      → candidates N spp tolerance slots job ≡ []
  unfolding choose
  choose-none slots start job h = choose_among_picks (length slots) start job _ h
