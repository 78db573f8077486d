-- ===== src/Batches/Progress.antt =====
-- The progress of a batch (app/services/batch_store.py): the current job of each page, the counts of
-- GET /batches/{id} (app/routers/batches.py), and the transactions in which workers end pages and
-- finish the batch (`finish_if_done`, called by app/workers/poller/worker.py and
-- app/workers/submit/worker.py).
use tuzka_as_a_service.Prelude.{
  ℕ, ◌≡◌, Bool, true, false, ◌&&◌, not, Option, none, some, List, ◌==◌, if◌then◌else◌, update, map,
  any,
}
use tuzka_as_a_service.Redis.State.{JobStatus, queued, running, storing, done, failed}
use tuzka_as_a_service.Batches.{
  PageJob, BatchStatus, open_batch, queued_batch, finished_batch, is_of,
}

-- `status IN ('queued', 'running', 'storing')`.
abbrev pub is_active : JobStatus → Bool
is_active queued = true
is_active running = true
is_active storing = true
is_active done = false
is_active failed = false

abbrev pub is_done : JobStatus → Bool
is_done done = true
is_done _ = false

-- Whether a batch has a page left to run.
abbrev pub has_active : ℕ → List PageJob → Bool
has_active batch_id = any (λ j. is_of batch_id j && is_active j.status)

abbrev finish_status : BatchStatus → BatchStatus
finish_status open_batch = open_batch
finish_status queued_batch = finished_batch
finish_status finished_batch = finished_batch

-- `_FINISH`, on the rows that its statement sees.
unfoldable pub finish_if_done : ℕ → List PageJob → BatchStatus → BatchStatus
finish_if_done batch_id jobs status =
    if has_active batch_id jobs then status else finish_status status

abbrev end_row : ℕ → JobStatus → PageJob → PageJob
end_row id status j =
    if (j.id == id) && not (is_done j.status) then record j { status = status } else j

-- The update of a page's row to done or failed, which leaves a done one.
abbrev pub end_page : ℕ → JobStatus → List PageJob → List PageJob
end_page id status = map (end_row id status)

-- How far a worker's transaction is: its update is made, it has the lock on the batch's row, or it has
-- run `_FINISH`, with the status that it left.
pub data Phase : Type 0 where
  idle updated locked committed : Phase
  checked : BatchStatus → Phase

-- The committed rows, and the open transactions. Each ends one page, `ends` says how.
pub record Race : Type 0 where
  pub jobs : List PageJob
  pub batch : BatchStatus
  pub phases : ℕ → Phase
  pub holder : Option ℕ

-- The steps of the transactions of one batch. `_LOCK` waits while another transaction holds the row;
-- `_FINISH` sees the committed rows and its own update; a commit makes both public and unlocks.
pub data RaceStep (batch_id : ℕ) (ends : ℕ → JobStatus) (s : Race) : Race → Type 0 where
  make_update :
      (id : ℕ)
      → s.phases id ≡ idle
      → RaceStep batch_id ends s (record s { phases = update id updated s.phases })
  take_lock :
      (id : ℕ)
      → s.phases id ≡ updated
      → s.holder ≡ none
      → RaceStep batch_id ends s (record s { phases = update id locked s.phases; holder = some id })
  run_finish :
      (id : ℕ)
      → s.phases id ≡ locked
      → RaceStep batch_id ends s (record s {
        phases =
            update id
              (checked (finish_if_done batch_id (end_page id (ends id) s.jobs) s.batch))
              s.phases;
      })
  make_commit :
      (id : ℕ) (status : BatchStatus)
      → s.phases id ≡ checked status
      → RaceStep batch_id ends s (record s {
        jobs = end_page id (ends id) s.jobs;
        batch = status;
        phases = update id committed s.phases;
        holder = none;
      })

pub data RaceRun (batch_id : ℕ) (ends : ℕ → JobStatus) (s : Race) : Race → Type 0 where
  no_step : RaceRun batch_id ends s s
  and_step :
      {t u : Race}
      → RaceRun batch_id ends s t
      → RaceStep batch_id ends t u
      → RaceRun batch_id ends s u
