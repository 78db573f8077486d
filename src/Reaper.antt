-- ===== src/Reaper.antt =====
-- Failing jobs that are stuck in a phase (app/services/reaper.py).
pub mod Sweep
use tuzka_as_a_service.Prelude.{
  ℕ, ◌+◌, ◌≡◌, refl, Bool, true, false, Option, none, some, List, [], ◌∷◌, arith, Text, codes, ltb,
  keep, not, if◌then◌else◌, or_else, map, length, take, member, ◌==◌, ◌≤◌, ◌&&◌, ◌||◌, Bool-cases,
  inl, inr, text_eq,
}
use tuzka_as_a_service.Redis.ZSet.{zhas}
use tuzka_as_a_service.Redis.State.{
  JobStatus, queued, running, storing, done, failed, is_terminal, Store,
}
use tuzka_as_a_service.Redis.Lifecycle.{set_failed}
use tuzka_as_a_service.Redis.Harvest.{pending_harvest_members}

-- A row of the table of jobs, its columns that the reaper reads and writes.
pub record Job : Type 0 where
  pub id : ℕ
  pub status : JobStatus
  pub domain : Option Text
  pub submitted_at : ℕ
  pub dispatched_at : Option ℕ
  pub error : Option Text
  pub finished_at : Option ℕ

-- The reasons, with the timeout that their text names.
pub data Reason : Type 0 where
  timed_out_in_queue timed_out_while_processing : ℕ → Reason

abbrev queued_reason : ℕ → ℕ → Job → Option Reason
queued_reason now queued_timeout job =
    if ltb (job.submitted_at + queued_timeout) now
    then some (timed_out_in_queue queued_timeout)
    else none

abbrev running_reason : ℕ → (Option Text → ℕ) → Job → Option Reason
running_reason now running_timeout_for job = elim job.dispatched_at [
  | none ↦ none
  | some dispatched_at ↦
      let running_timeout = running_timeout_for job.domain in
      if ltb (dispatched_at + running_timeout) now
      then some (timed_out_while_processing running_timeout)
      else none
]

abbrev reason_of : ℕ → ℕ → (Option Text → ℕ) → Job → Option Reason
reason_of now queued_timeout running_timeout_for job = elim job.status [
  | queued ↦ queued_reason now queued_timeout job
  | running ↦ running_reason now running_timeout_for job
  | storing ↦ running_reason now running_timeout_for job
  | _ ↦ none
]

abbrev with_reason : Job → Option Reason → List (Job × Reason) → List (Job × Reason)
with_reason job none stale = stale
with_reason job (some reason) stale = (job, reason) ∷ stale

-- `select_stale_jobs`.
unfoldable pub select_stale_jobs : List Job → ℕ → ℕ → (Option Text → ℕ) → List (Job × Reason)
select_stale_jobs [] now queued_timeout running_timeout_for = []
select_stale_jobs (job ∷ jobs) now queued_timeout running_timeout_for =
    with_reason job (reason_of now queued_timeout running_timeout_for job)
      (select_stale_jobs jobs now queued_timeout running_timeout_for)

-- `running_timeout_for`: a domain's own timeout, or the one of the configuration.
unfoldable pub running_timeout_for : ℕ → (Text → Option (Option ℕ)) → Option Text → ℕ
running_timeout_for running_timeout domain_limits domain =
    or_else (or_else (domain_limits (or_else domain (codes "default"))) none) running_timeout

module _ (reason_text : Reason → Text) where
  unfoldable pub fail_all : List (Job × Reason) → ℕ → ℕ → Store → Store
  fail_all [] state_ttl now r = r
  fail_all ((job, reason) ∷ stale) state_ttl now r =
      fail_all stale state_ttl now (set_failed job.id (reason_text reason) state_ttl now r).0

  -- `reap_stale_jobs` on the keyspace: the store after it, and what was reaped.
  unfoldable pub reap_stale_jobs :
      List Job → ℕ → ℕ → (Option Text → ℕ) → ℕ → Store → Store × List (Job × Reason)
  unfolding select_stale_jobs pending_harvest_members fail_all
  reap_stale_jobs candidates now queued_timeout timeout_for state_ttl r =
      let stale = select_stale_jobs candidates now queued_timeout timeout_for in
      let harvesting = pending_harvest_members (map (λ (job, reason). job.id) stale) r in
      let left = keep (λ (job, reason). not (member job.id harvesting)) stale in
      (fail_all left state_ttl now r, left)

  -- The row of a reaped job.
  unfoldable pub fail_row : ℕ → Job × Reason → Job
  fail_row now (job, reason) = record job {
    status = failed;
    error = some (reason_text reason);
    finished_at = some now;
  }
