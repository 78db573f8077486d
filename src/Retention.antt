-- ===== src/Retention.antt =====
-- What the cleanup worker deletes (app/services/retention.py). Times and sizes are numbers; the
-- database queries that pick the rows are the caller's.
use tuzka_as_a_service.Prelude.{
  ℕ, zero, suc, ◌+◌, ◌-◌, ◌*◌, ◌/◌, ◌≤◌, ◌<◌, ◌≡◌, refl, ap, Bool, false, List, [], ◌∷◌, ltb, leb,
  if◌then◌else◌, arith, take, length, Bool-cases, inl, inr, ◌⊎◌,
}

-- `expired_job_cutoffs`: the done and the failed cutoff.
unfoldable pub expired_job_cutoffs : ℕ → ℕ → ℕ → ℕ × ℕ
expired_job_cutoffs now done_ttl_s failed_ttl_s = (now - done_ttl_s, now - failed_ttl_s)

-- `batch_expired`.
unfoldable pub batch_expired : ℕ → Bool → ℕ → ℕ → ℕ → Bool
batch_expired finished_at any_failed now done_ttl_s failed_ttl_s =
    ltb finished_at (now - (if any_failed then failed_ttl_s else done_ttl_s))

-- `cap_bytes * EVICT_TO`, where `EVICT_TO` is 0.9, in whole bytes: a usage is within the one if it
-- is within the other.
abbrev pub evict_target : ℕ → ℕ
evict_target cap_bytes = cap_bytes * 9 / 10

module _ {A : Type 0} where
  -- The loop of `plan_eviction`. A usage below 0 is as good as 0: both are within the target.
  unfoldable pub evict_loop : List (A × ℕ) → ℕ → ℕ → List A
  evict_loop [] used_bytes target = []
  evict_loop ((key, size) ∷ rest) used_bytes target =
      let more = key ∷ evict_loop rest (used_bytes - size) target in
      if leb used_bytes target then [] else more

  -- `plan_eviction`.
  unfoldable pub plan_eviction : List (A × ℕ) → ℕ → ℕ → List A
  unfolding evict_loop
  plan_eviction oldest_first used_bytes cap_bytes =
      if leb used_bytes cap_bytes
      then []
      else evict_loop oldest_first used_bytes (evict_target cap_bytes)

  abbrev pub keys : List (A × ℕ) → List A
  keys [] = []
  keys ((key, size) ∷ rest) = key ∷ keys rest

  abbrev pub total_size : List (A × ℕ) → ℕ
  total_size [] = 0
  total_size ((key, size) ∷ rest) = size + total_size rest

  evict_loop_lem :
      (items : List (A × ℕ)) (used target : ℕ)
      → (k : ℕ) × (evict_loop items used target ≡ keys (take k items))
        × (used ≤ target + total_size (take k items) ⊎ (length items ≤ k))
        × ((j : ℕ) → j < k → target + total_size (take j items) < used)
  unfolding evict_loop
  evict_loop_lem [] used target = (0, refl, inr (omega arith), λ j h. absurd (omega arith))
  evict_loop_lem ((key, size) ∷ rest) used target = elim (Bool-cases (leb used target)) [
    | inl fits ↦ (0, rw fits, inl (ground (arith, fits)), λ j h. absurd (omega arith))
    | inr over ↦
        let (k, e, a, b) = evict_loop_lem rest (used - size) target in
        (suc k, rw over (ap (λ l. key ∷ l) e), reach k a, λ j h. short k b j h over)
  ]
    where
      reach :
          (k : ℕ)
          → (used - size ≤ target + total_size (take k rest)) ⊎ (length rest ≤ k)
          → (used ≤ target + (size + total_size (take k rest))) ⊎ (suc (length rest) ≤ suc k)
      reach k (inl h) = inl (omega arith)
      reach k (inr h) = inr (omega arith)

      short :
          (k : ℕ)
          → ((j : ℕ) → j < k → target + total_size (take j rest) < used - size)
          → (j : ℕ) → j < suc k
          → leb used target ≡ false
          → target + total_size (take j ((key, size) ∷ rest)) < used
      short k b zero h over = ground arith
      short k b (suc j) h over = omega (arith, b j (omega arith))

  -- Over the cap, eviction takes the oldest results and no more than it has to: it evicts the
  -- first k, with which the usage drops to nine tenths of the cap or nothing is left to evict, and either k is
  -- 0 or one result less would not have reached the target.
  pub plan_eviction_lem :
      (items : List (A × ℕ)) (used cap : ℕ)
      → cap < used
      → (k : ℕ) × (plan_eviction items used cap ≡ keys (take k items))
        × ((used ≤ evict_target cap + total_size (take k items)) ⊎ (length items ≤ k))
        × ((k ≡ 0) ⊎ (evict_target cap + total_size (take (k - 1) items) < used))
  unfolding plan_eviction
  plan_eviction_lem items used cap h =
      let target = evict_target cap in
      let (k, e, a, b) = evict_loop_lem items used target in
      let over : leb used cap ≡ false = ground arith in (k, rw over e, a, one_less target k b)
    where
      one_less :
          (target k : ℕ)
          → ((j : ℕ) → j < k → target + total_size (take j items) < used)
          → (k ≡ 0) ⊎ (target + total_size (take (k - 1) items) < used)
      one_less target zero b = inl refl
      one_less target (suc j) b =
          let e : suc j - 1 ≡ j = omega arith in inr (rw e (b j (omega arith)))
