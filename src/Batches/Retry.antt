-- ===== src/Batches/Retry.antt =====
-- The pages of a batch and the retry of its failed ones: `_latest_pages` and `page_counts` of
-- app/services/batch_store.py, `retry_batch` and the counts of `get_batch` of app/routers/batches.py.
-- The rows of jobs stand in the order in which they were submitted.
use tuzka_as_a_service.Prelude.{
  ℕ, ◌+◌, Bool, true, false, ◌&&◌, not, Option, none, some, List, [], ◌∷◌, ◌++◌, Text,
  if◌then◌else◌, update, keep, any, length, text_eq,
}
use tuzka_as_a_service.Redis.State.{JobStatus, queued, done, failed, BatchCounts}
use tuzka_as_a_service.Batches.{
  PageJob, BatchStatus, open_batch, queued_batch, finished_batch, BatchRow, World, is_of,
}

-- A newer job of the same page is among the rows.
abbrev pub is_retried : ℕ → PageJob → List PageJob → Bool
is_retried batch_id j rows = any (λ k. is_of batch_id k && text_eq k.source_name j.source_name) rows

-- `_latest_pages`.
unfoldable pub latest_pages : ℕ → List PageJob → List PageJob
unfolding text_eq
latest_pages batch_id [] = []
latest_pages batch_id (j ∷ rows) =
    let rest = latest_pages batch_id rows in
    if is_of batch_id j && not (is_retried batch_id j rows) then j ∷ rest else rest

abbrev pub is_failed : JobStatus → Bool
is_failed failed = true
is_failed _ = false

abbrev pub is_done : JobStatus → Bool
is_done done = true
is_done _ = false

-- `counts.get(status, 0)` of `page_counts`.
abbrev pub count_pages : (JobStatus → Bool) → List PageJob → ℕ
count_pages p pages = length (keep (λ j. p j.status) pages)

-- A page's upload is still there and could be copied for its new job.
abbrev pub goes_again : (PageJob → Bool) → PageJob → Bool
goes_again copied j = is_failed j.status && copied j

-- The new rows of the retried pages; `new_id` numbers them.
abbrev pub retry_row : ℕ → (ℕ → ℕ) → ℕ → PageJob → PageJob
retry_row batch_id new_id i j = record {
  id = new_id i;
  batch_id = some batch_id;
  source_name = j.source_name;
  status = queued;
  megapixels = j.megapixels;
}

abbrev pub retry_rows : ℕ → (ℕ → ℕ) → (PageJob → Bool) → ℕ → List PageJob → List PageJob
retry_rows batch_id new_id copied i [] = []
retry_rows batch_id new_id copied i (j ∷ pages) =
    if goes_again copied j
    then retry_row batch_id new_id i j ∷ retry_rows batch_id new_id copied (i + 1) pages
    else retry_rows batch_id new_id copied i pages

abbrev pub expired_names : (PageJob → Bool) → List PageJob → List Text
expired_names copied [] = []
expired_names copied (j ∷ pages) =
    if is_failed j.status && not (copied j)
    then j.source_name ∷ expired_names copied pages
    else expired_names copied pages

pub data RetryAnswer : Type 0 where
  not_found not_finished : RetryAnswer
  retried : ℕ → List Text → RetryAnswer

abbrev pub reopened : BatchRow → BatchRow
reopened row = record row { status = queued_batch; finished_at = none }

-- The counters that a retry restarts from.
abbrev pub restarted : ℕ → ℕ → List PageJob → BatchCounts
restarted batch_id total jobs =
    let pages = latest_pages batch_id jobs in
    record {
      total = total;
      done_pages = count_pages is_done pages;
      failed_pages = count_pages is_failed pages;
    }

-- The rows of the retried pages are added and the batch is opened again, unless there are none.
abbrev pub reopen :
    ℕ → BatchRow → List Text → World → List PageJob → World × RetryAnswer × Option BatchCounts
reopen batch_id row expired w [] = (w, retried 0 expired, none)
reopen batch_id row expired w (j ∷ again) =
    let jobs = w.jobs ++ (j ∷ again) in
    (
      record w { jobs = jobs; batches = update batch_id (some (reopened row)) w.batches },
      retried (length (j ∷ again)) expired,
      some (restarted batch_id row.total jobs),
    )

abbrev pub retry_finished :
    (ℕ → ℕ) → (PageJob → Bool) → ℕ → BatchRow → World → World × RetryAnswer × Option BatchCounts
retry_finished new_id copied batch_id row w =
    let pages = latest_pages batch_id w.jobs in
    reopen batch_id row (expired_names copied pages) w (retry_rows batch_id new_id copied 0 pages)

abbrev pub retry_row_in :
    (ℕ → ℕ)
    → (PageJob → Bool)
    → ℕ
    → BatchRow
    → BatchStatus
    → World
    → World × RetryAnswer × Option BatchCounts
retry_row_in new_id copied batch_id row finished_batch w =
    retry_finished new_id copied batch_id row w
retry_row_in new_id copied batch_id row open_batch w = (w, not_finished, none)
retry_row_in new_id copied batch_id row queued_batch w = (w, not_finished, none)

abbrev pub retry_found :
    (ℕ → ℕ)
    → (PageJob → Bool)
    → ℕ
    → Option BatchRow
    → World
    → World × RetryAnswer × Option BatchCounts
retry_found new_id copied batch_id none w = (w, not_found, none)
retry_found new_id copied batch_id (some row) w =
    retry_row_in new_id copied batch_id row row.status w

-- `retry_batch`: the world after it, its answer, and the counters that it restarts, if any.
unfoldable pub retry_batch :
    (ℕ → ℕ) → (PageJob → Bool) → ℕ → World → World × RetryAnswer × Option BatchCounts
unfolding latest_pages
retry_batch new_id copied batch_id w = retry_found new_id copied batch_id (w.batches batch_id) w
