-- ===== src/Redis/Claims.antt =====
-- Claims of peeked entries by several submit workers: `claim_pending` of
-- app/services/redis_jobs.py.
use tuzka_as_a_service.Prelude.{
  ℕ, ◌≡◌, refl, sym, subst, true, false, List, [], ◌∷◌, arith, ◌==◌, member, inl, inr, Bool-cases,
  ==_iff,
}
use tuzka_as_a_service.Redis.ZSet.{zhas, zscore-zrem}
use tuzka_as_a_service.Redis.State.{Store}
use tuzka_as_a_service.Redis.Queue.{QueueEntry, claim_one, claim_pending}

-- Every entry names the priority level that its job has.
abbrev pub AtLevel : (ℕ → ℕ) → List QueueEntry → Type 0
AtLevel level [] = Unit
AtLevel level (e ∷ es) = (e.priority ≡ level e.job_id) × AtLevel level es

claim_one_gone :
    (now id p : ℕ) (e : QueueEntry) (r : Store)
    → zhas id (r.pending p) ≡ false
    → zhas id ((claim_one now e r).0.pending p) ≡ false
unfolding claim_one
claim_one_gone now id p e r h =
    ground (arith, zscore-zrem e.job_id id (r.pending e.priority), ==_iff e.priority p)

claim_one_takes :
    (now : ℕ) (e : QueueEntry) (r : Store)
    → zhas e.job_id ((claim_one now e r).0.pending e.priority) ≡ false
unfolding claim_one
claim_one_takes now e r = ground (arith, zscore-zrem e.job_id e.job_id (r.pending e.priority))

claim_one_needs :
    (now : ℕ) (e : QueueEntry) (r : Store)
    → zhas e.job_id (r.pending e.priority) ≡ false
    → (claim_one now e r).1 ≡ false
unfolding claim_one
claim_one_needs now e r h = ground arith

claim_pending_gone :
    (now id p : ℕ) (es : List QueueEntry) (r : Store)
    → zhas id (r.pending p) ≡ false
    → zhas id ((claim_pending now es r).0.pending p) ≡ false
unfolding claim_pending
claim_pending_gone now id p [] r h = h
claim_pending_gone now id p (e ∷ es) r h =
    claim_pending_gone now id p es (claim_one now e r).0 (claim_one_gone now id p e r h)

claim_pending_needs :
    (level : ℕ → ℕ) (now id : ℕ) (es : List QueueEntry) (r : Store)
    → AtLevel level es
    → zhas id (r.pending (level id)) ≡ false
    → member id (claim_pending now es r).1 ≡ false
unfolding claim_pending
claim_pending_needs level now id [] r a h = refl
claim_pending_needs level now id (e ∷ es) r a h =
    let rest =
      claim_pending_needs level now id es (claim_one now e r).0 a.1
        (claim_one_gone now id (level id) e r h) in
    elim (Bool-cases (e.job_id == id)) [
      | inl q ↦ rw (claim_one_needs now e r (here ((==_iff e.job_id id).0 q))) rest
      | inr q ↦ ground (arith, rest)
    ]
  where
    here : e.job_id ≡ id → zhas e.job_id (r.pending e.priority) ≡ false
    here q =
        subst (λ p. zhas e.job_id (r.pending p) ≡ false) (sym a.0)
          (subst (λ i. zhas i (r.pending (level i)) ≡ false) (sym q) h)

claim_pending_takes :
    (level : ℕ → ℕ) (now id : ℕ) (es : List QueueEntry) (r : Store)
    → AtLevel level es
    → member id (claim_pending now es r).1 ≡ true
    → zhas id ((claim_pending now es r).0.pending (level id)) ≡ false
unfolding claim_pending
claim_pending_takes level now id [] r a h = cc
claim_pending_takes level now id (e ∷ es) r a h =
    elim (Bool-cases (member id (claim_pending now es (claim_one now e r).0).1)) [
      | inl m ↦ claim_pending_takes level now id es (claim_one now e r).0 a.1 m
      | inr m ↦
          claim_pending_gone now id (level id) es (claim_one now e r).0
            (taken ((==_iff e.job_id id).0 (ground (arith, m, h))))
    ]
  where
    taken : e.job_id ≡ id → zhas id ((claim_one now e r).0.pending (level id)) ≡ false
    taken q =
        subst (λ i. zhas i ((claim_one now e r).0.pending (level i)) ≡ false) q
          (subst (λ p. zhas e.job_id ((claim_one now e r).0.pending p) ≡ false) a.0
            (claim_one_takes now e r))

-- A job that one worker claimed is not claimed by the next, whatever the two workers peeked, if
-- each peeked entry names its job's own priority level.
pub claims_disjoint :
    (level : ℕ → ℕ) (now now' id : ℕ) (es es' : List QueueEntry) (r : Store)
    → AtLevel level es
    → AtLevel level es'
    → let (t, ids) = claim_pending now es r in
      member id ids ≡ true → member id (claim_pending now' es' t).1 ≡ false
claims_disjoint level now now' id es es' r a a' h =
    claim_pending_needs level now' id es' (claim_pending now es r).0 a'
      (claim_pending_takes level now id es r a h)
