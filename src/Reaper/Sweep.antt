-- ===== src/Reaper/Sweep.antt =====
-- What a sweep of the reaper leaves alone, and what it brings about (app/services/reaper.py).
use tuzka_as_a_service.Prelude.{
  ℕ, ◌≡◌, refl, sym, ◌∙◌, Bool, true, false, ◌&&◌, not, Option, some, List, [], ◌∷◌, arith, Text,
  keep, any, All, map, member, member-srem, ◌==◌, Bool-cases, inl, inr,
}
use tuzka_as_a_service.Redis.ZSet.{zhas, zscore-zrem}
use tuzka_as_a_service.Redis.State.{failed, Store}
use tuzka_as_a_service.Redis.Queue.{orphan_fields}
use tuzka_as_a_service.Redis.Lifecycle.{set_failed}
use tuzka_as_a_service.Redis.Harvest.{pending_harvest_members}
use tuzka_as_a_service.Reaper.{Job, Reason, select_stale_jobs, reap_stale_jobs, fail_all}

set_failed_others :
    (id : ℕ) (error : Text) (ttl now : ℕ) (r : Store) (j : ℕ)
    → (id == j) ≡ false
    → ((set_failed id error ttl now r).0.jobs j ≡ r.jobs j)
      × (zhas j (set_failed id error ttl now r).0.pending_harvest ≡ zhas j r.pending_harvest)
      × (member j (set_failed id error ttl now r).0.inflight ≡ member j r.inflight)
unfolding set_failed
set_failed_others id error ttl now r j h =
    ground (arith, zscore-zrem id j r.pending_harvest, member-srem id j r.inflight)

-- The job failed: it holds no slot and no harvest waits for it.
abbrev pub HasFailed : Store → ℕ → Type 0
HasFailed r id =
    ((orphan_fields (r.jobs id)).status ≡ some failed)
    × (member id r.inflight ≡ false)
    × (zhas id r.pending_harvest ≡ false)

set_failed-HasFailed :
    (id : ℕ) (error : Text) (ttl now : ℕ) (r : Store)
    → HasFailed (set_failed id error ttl now r).0 id
unfolding set_failed
set_failed-HasFailed id error ttl now r =
    ground (arith, zscore-zrem id id r.pending_harvest, member-srem id id r.inflight)

stays-HasFailed :
    (id : ℕ) (error : Text) (ttl now : ℕ) (r : Store) (j : ℕ)
    → HasFailed r j
    → HasFailed (set_failed id error ttl now r).0 j
stays-HasFailed id error ttl now r j h = elim (Bool-cases (id == j)) [
  | inl e ↦ let q : id ≡ j = ground arith in rw (sym q) (set_failed-HasFailed id error ttl now r)
  | inr e ↦ let (a, b, c) = set_failed_others id error ttl now r j e in rw (a, b, c) h
]

module _ (reason_text : Reason → Text) where
  abbrev is_of : ℕ → Job × Reason → Bool
  is_of j (job, reason) = job.id == j

  fail_all_others :
      (stale : List (Job × Reason)) (ttl now : ℕ) (r : Store) (j : ℕ)
      → any (is_of j) stale ≡ false
      → ((fail_all reason_text stale ttl now r).jobs j ≡ r.jobs j)
        × (zhas j (fail_all reason_text stale ttl now r).pending_harvest ≡ zhas j r.pending_harvest)
  unfolding fail_all
  fail_all_others [] ttl now r j h = (refl, refl)
  fail_all_others ((job, reason) ∷ stale) ttl now r j h =
      let s = (set_failed job.id (reason_text reason) ttl now r).0 in
      let (a, b, c) = set_failed_others job.id (reason_text reason) ttl now r j (ground arith) in
      let (d, e) = fail_all_others stale ttl now s j (ground arith) in (d ∙ a, e ∙ b)

  fail_all_keeps :
      (stale : List (Job × Reason)) (ttl now : ℕ) (r : Store) (j : ℕ)
      → HasFailed r j
      → HasFailed (fail_all reason_text stale ttl now r) j
  unfolding fail_all
  fail_all_keeps [] ttl now r j h = h
  fail_all_keeps ((job, reason) ∷ stale) ttl now r j h =
      fail_all_keeps stale ttl now _ j (stays-HasFailed job.id (reason_text reason) ttl now r j h)

  fail_all-HasFailed :
      (stale : List (Job × Reason)) (ttl now : ℕ) (r : Store)
      → All (λ (job, reason). HasFailed (fail_all reason_text stale ttl now r) job.id) stale
  unfolding fail_all
  fail_all-HasFailed [] ttl now r = tt
  fail_all-HasFailed ((job, reason) ∷ stale) ttl now r = (
    fail_all_keeps stale ttl now _ job.id
        (set_failed-HasFailed job.id (reason_text reason) ttl now r),
    fail_all-HasFailed stale ttl now (set_failed job.id (reason_text reason) ttl now r).0,
  )

  any-keep :
      (j : ℕ) (h : List ℕ) (stale : List (Job × Reason))
      → any (is_of j) (keep (λ (job, reason). not (member job.id h)) stale)
        ≡ (any (is_of j) stale && not (member j h))
  any-keep j h [] = ground arith
  any-keep j h ((job, reason) ∷ stale) = elim (Bool-cases (job.id == j)) [
    | inl e ↦ let q : job.id ≡ j = ground arith in rw q (ground (arith, any-keep j h stale))
    | inr e ↦ ground (arith, any-keep j h stale)
  ]

  member-any :
      (j : ℕ) (r : Store) (stale : List (Job × Reason))
      → member j (pending_harvest_members (map (λ (job, reason). job.id) stale) r)
        ≡ (any (is_of j) stale && zhas j r.pending_harvest)
  unfolding pending_harvest_members
  member-any j r [] = ground arith
  member-any j r ((job, reason) ∷ stale) = elim (Bool-cases (job.id == j)) [
    | inl e ↦ let q : job.id ≡ j = ground arith in rw q (ground (arith, member-any j r stale))
    | inr e ↦ ground (arith, member-any j r stale)
  ]

  -- A sweep leaves a job alone whose results still wait to be stored, however long the job sat:
  -- its hash stays as it is and its harvest stays queued.
  pub reap_spares_harvests :
      (candidates : List Job) (now queued_timeout : ℕ) (timeout_for : Option Text → ℕ) (ttl : ℕ)
      (r : Store) (j : ℕ)
      → zhas j r.pending_harvest ≡ true
      → ((reap_stale_jobs reason_text candidates now queued_timeout timeout_for ttl r).0.jobs j
          ≡ r.jobs j)
        × (zhas j
              (reap_stale_jobs reason_text candidates now queued_timeout timeout_for ttl
                r).0.pending_harvest
            ≡ true)
  unfolding reap_stale_jobs
  reap_spares_harvests candidates now queued_timeout timeout_for ttl r j h =
      let stale = select_stale_jobs candidates now queued_timeout timeout_for in
      let harvesting = pending_harvest_members (map (λ (job, reason). job.id) stale) r in
      let (a, b) =
        fail_all_others (keep (λ (job, reason). not (member job.id harvesting)) stale) ttl now r j
          (ground (arith, any-keep j harvesting stale, member-any j r stale)) in
      (a, b ∙ h)

  -- After a sweep every reaped job is failed, holds no slot and has no harvest waiting.
  pub reap_fails :
      (candidates : List Job) (now queued_timeout : ℕ) (timeout_for : Option Text → ℕ) (ttl : ℕ)
      (r : Store)
      → All
          (λ (job, reason).
            HasFailed
              (reap_stale_jobs reason_text candidates now queued_timeout timeout_for ttl r).0
              job.id)
          (reap_stale_jobs reason_text candidates now queued_timeout timeout_for ttl r).1
  unfolding reap_stale_jobs
  reap_fails candidates now queued_timeout timeout_for ttl r = fail_all-HasFailed _ ttl now r
