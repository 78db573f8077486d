-- ===== src/Batches/Counts.antt =====
-- The pages of a batch before and after a retry (app/routers/batches.py).
use mathlib.Core.List.{append-nil}
use tuzka_as_a_service.Prelude.{
  keep-append, all-keep, update, ℕ, ◌+◌, ◌≡◌, refl, ◌∙◌, ap, Bool, true, false, not, Option, none,
  some, List, [], ◌∷◌, ◌++◌, arith, keep, all, length, length-append, inl, inr, ◌⊎◌,
}
use tuzka_as_a_service.Redis.State.{JobStatus, queued, running, storing, done, failed, BatchCounts}
use tuzka_as_a_service.Batches.{
  PageJob, BatchStatus, open_batch, queued_batch, finished_batch, BatchRow, World,
}
use tuzka_as_a_service.Batches.Progress.{is_active}
use tuzka_as_a_service.Batches.Retry.{
  latest_pages, is_failed, is_done, count_pages, goes_again, retry_rows, retry_batch, retry_row_in,
  retry_found, RetryAnswer, not_found, not_finished, retried, reopen, reopened, restarted,
  expired_names,
}
use tuzka_as_a_service.Batches.Latest.{none_ended, length_split, latest_after_retry}

done_or_failed :
    (status : JobStatus)
    → is_active status ≡ false
    → ((is_done status ≡ true) × (is_failed status ≡ false))
      ⊎ ((is_done status ≡ false) × (is_failed status ≡ true))
done_or_failed queued a = cc a
done_or_failed running a = cc a
done_or_failed storing a = cc a
done_or_failed done a = inl (refl, refl)
done_or_failed failed a = inr (refl, refl)

-- No page is left to run.
abbrev pub are_over : List PageJob → Bool
are_over = all (λ j. not (is_active j.status))

over_split :
    (pages : List PageJob)
    → are_over pages ≡ true
    → count_pages is_done pages + count_pages is_failed pages ≡ length pages
over_split [] h = omega arith
over_split (j ∷ pages) h =
    let rest = over_split pages (ground (arith, h)) in
    elim (done_or_failed j.status (ground (arith, h))) [
      | inl (d, f) ↦ rw (d, f) (omega (arith, rest))
      | inr (d, f) ↦ rw (d, f) (omega (arith, rest))
    ]

-- A retry that does nothing and says why.
pub record IsRefused (w : World) (r : World × RetryAnswer × Option BatchCounts) (why : RetryAnswer)
    : Type 0 where
  pub same_world : r.0 ≡ w
  pub reason : r.1 ≡ why
  pub no_counters : r.2 ≡ none

-- A retry that reopens the batch for the jobs `rows`, with the counters it restarts.
pub record IsReopened (b : ℕ) (new_id : ℕ → ℕ) (copied : PageJob → Bool) (row : BatchRow)
    (w : World) (r : World × RetryAnswer × Option BatchCounts) : Type 0 where
  pub counts : BatchCounts
  pub counters : r.2 ≡ some counts
  pub reason :
      r.1
      ≡ retried
          (length (retry_rows b new_id copied 0 (latest_pages b w.jobs)))
          (expired_names copied (latest_pages b w.jobs))
  pub row_open : r.0.batches b ≡ some (reopened row)
  pub pages :
      latest_pages b r.0.jobs
      ≡ keep (λ j. not (goes_again copied j)) (latest_pages b w.jobs)
        ++ retry_rows b new_id copied 0 (latest_pages b w.jobs)
  pub no_loss : length (latest_pages b r.0.jobs) ≡ length (latest_pages b w.jobs)
  pub adds_up :
      counts.done_pages
        + counts.failed_pages
        + length (retry_rows b new_id copied 0 (latest_pages b w.jobs))
      ≡ length (latest_pages b r.0.jobs)

-- A finished batch is reopened for the pages that go again, if there are any.
abbrev FinishedAddsUp :
    ℕ
    → (ℕ → ℕ)
    → (PageJob → Bool)
    → BatchRow
    → World
    → World × RetryAnswer × Option BatchCounts
    → List PageJob
    → Type 0
FinishedAddsUp b new_id copied row w r [] =
    IsRefused w r (retried 0 (expired_names copied (latest_pages b w.jobs)))
FinishedAddsUp b new_id copied row w r (j ∷ rows) = IsReopened b new_id copied row w r

abbrev StatusAddsUp :
    ℕ
    → (ℕ → ℕ)
    → (PageJob → Bool)
    → BatchRow
    → World
    → World × RetryAnswer × Option BatchCounts
    → BatchStatus
    → Type 0
StatusAddsUp b new_id copied row w r open_batch = IsRefused w r not_finished
StatusAddsUp b new_id copied row w r queued_batch = IsRefused w r not_finished
StatusAddsUp b new_id copied row w r finished_batch =
    FinishedAddsUp b new_id copied row w r (retry_rows b new_id copied 0 (latest_pages b w.jobs))

abbrev FoundAddsUp :
    ℕ
    → (ℕ → ℕ)
    → (PageJob → Bool)
    → World
    → World × RetryAnswer × Option BatchCounts
    → Option BatchRow
    → Type 0
FoundAddsUp b new_id copied w r none = IsRefused w r not_found
FoundAddsUp b new_id copied w r (some row) = StatusAddsUp b new_id copied row w r row.status

-- What a retry of the batch `b` is to answer and leave, from what the batch is.
abbrev pub AddsUp :
    ℕ → (ℕ → ℕ) → (PageJob → Bool) → World → World × RetryAnswer × Option BatchCounts → Type 0
AddsUp b new_id copied w r = FoundAddsUp b new_id copied w r (w.batches b)

update_at : (b : ℕ) (row : BatchRow) (f : ℕ → Option BatchRow) → update b (some row) f b ≡ some row
update_at b row f = ground arith

module _ (b : ℕ) (new_id : ℕ → ℕ) (copied : PageJob → Bool) where
  counts_after :
      (p : JobStatus → Bool) (pages : List PageJob)
      → p queued ≡ false
      → count_pages p
          (keep (λ k. not (goes_again copied k)) pages ++ retry_rows b new_id copied 0 pages)
        ≡ count_pages p (keep (λ k. not (goes_again copied k)) pages)
  counts_after p pages h = ap length (
      keep-append (λ (j : PageJob). p j.status) (keep (λ k. not (goes_again copied k)) pages)
        (retry_rows b new_id copied 0 pages)
      ∙ rw (none_ended b new_id copied p 0 pages h) (
          append-nil
            (keep (λ (j : PageJob). p j.status) (keep (λ k. not (goes_again copied k)) pages))))

  refused : (w : World) (why : RetryAnswer) → IsRefused w (w, why, none) why
  refused w why = record { same_world = refl; reason = refl; no_counters = refl }

  reopen-AddsUp :
      (row : BatchRow) (w : World) (rows : List PageJob)
      → are_over (latest_pages b w.jobs) ≡ true
      → rows ≡ retry_rows b new_id copied 0 (latest_pages b w.jobs)
      → let expired = expired_names copied (latest_pages b w.jobs) in
        FinishedAddsUp b new_id copied row w (reopen b row expired w rows) rows
  reopen-AddsUp row w [] o q = refused w _
  reopen-AddsUp row w (j ∷ rows) o q =
      let pages = latest_pages b w.jobs in
      let left = keep (λ k. not (goes_again copied k)) pages in
      let after : latest_pages b (w.jobs ++ (j ∷ rows))
          ≡ left ++ retry_rows b new_id copied 0 pages =
        rw q (latest_after_retry b new_id copied w.jobs) in
      let split = length_split b new_id copied 0 pages in
      let total = length-append left (retry_rows b new_id copied 0 pages) in
      let ended = over_split left (
        all-keep (λ (j : PageJob). not (is_active j.status)) (λ k. not (goes_again copied k)) pages
          o) in
      let dones = ap (count_pages is_done) after ∙ counts_after is_done pages refl in
      let faileds = ap (count_pages is_failed) after ∙ counts_after is_failed pages refl in
      let many = ap length q in
      let size = ap length after in
      record {
        counts = restarted b row.total (w.jobs ++ (j ∷ rows));
        counters = refl;
        reason = ap (λ n. retried n (expired_names copied pages)) many;
        row_open = update_at b (reopened row) w.batches;
        pages = after;
        no_loss = omega (arith, size, total, split);
        adds_up = omega (arith, size, total, ended, dones, faileds);
      }

  retry_row_in-AddsUp :
      (row : BatchRow) (status : BatchStatus) (w : World)
      → are_over (latest_pages b w.jobs) ≡ true
      → StatusAddsUp b new_id copied row w (retry_row_in new_id copied b row status w) status
  retry_row_in-AddsUp row open_batch w o = refused w not_finished
  retry_row_in-AddsUp row queued_batch w o = refused w not_finished
  retry_row_in-AddsUp row finished_batch w o =
      let rows = retry_rows b new_id copied 0 (latest_pages b w.jobs) in
      reopen-AddsUp row w rows o refl

  retry_found-AddsUp :
      (found : Option BatchRow) (w : World)
      → are_over (latest_pages b w.jobs) ≡ true
      → FoundAddsUp b new_id copied w (retry_found new_id copied b found w) found
  retry_found-AddsUp none w o = refused w not_found
  retry_found-AddsUp (some row) w o = retry_row_in-AddsUp row row.status w o

-- A retry of a batch without a page left to run. A batch that is unknown answers not found, one that
-- is not finished answers so, and one without a failed page whose upload could be copied answers
-- that it retried none; these are left as they were. Any other is open again: each such page has a
-- new queued job, which then counts for its page, all other pages stay, the answer is the number of
-- those jobs, and the counters restart so that the done, the failed and the retried pages are all
-- the pages.
pub retry_batch-AddsUp :
    (new_id : ℕ → ℕ) (copied : PageJob → Bool) (b : ℕ) (w : World)
    → are_over (latest_pages b w.jobs) ≡ true
    → AddsUp b new_id copied w (retry_batch new_id copied b w)
unfolding retry_batch
retry_batch-AddsUp new_id copied b w o = retry_found-AddsUp b new_id copied (w.batches b) w o
