-- ===== src/Poller/Run.antt =====
-- The poller's work on the shared keyspace, one step after another (`run_pass` and `drain_due` of
-- app/workers/poller/worker.py): chunks of checks, taken as they finish, and due harvests, in any
-- order and by any number of pollers.
use tuzka_as_a_service.Prelude.{ℕ, List, Text}
use tuzka_as_a_service.Poller.Plan.{PollStatus, PollOutcome, FailureText}
use tuzka_as_a_service.Poller.Rows.{PollWorld}
use tuzka_as_a_service.Poller.Harvest.{Surroundings, HarvestAnswer}
use tuzka_as_a_service.Poller.Pass.{PollSettings, process_chunk, harvest_due}
use tuzka_as_a_service.Poller.Tracked.{IsTracked}
use tuzka_as_a_service.Poller.Safe.{process_chunk-IsTracked, harvest_due-IsTracked}

module _ (status_text : PollStatus → Text) (failure_text : FailureText → Text) where
  pub data PollerStep (w : PollWorld) : PollWorld → Type 0 where
    check_chunk :
        (c : PollSettings) (e : Surroundings) (rng : ℕ → ℕ → ℕ) (statuses : List PollOutcome)
        (released : ℕ)
        → PollerStep w (process_chunk status_text failure_text c e rng statuses released w).0
    harvest_pass :
        (c : PollSettings) (e : Surroundings) (released : ℕ) (answers : ℕ → HarvestAnswer)
        → PollerStep w (harvest_due c e released answers w)

  pub data PollerRun : PollWorld → PollWorld → Type 0 where
    stop : (w : PollWorld) → PollerRun w w
    then_step : {u v w : PollWorld} → PollerRun u v → PollerStep v w → PollerRun u w

  PollerStep-IsTracked :
      (id p : ℕ) {w v : PollWorld}
      → PollerStep w v
      → IsTracked id p w.store
      → IsTracked id p v.store
  PollerStep-IsTracked id p {w} (check_chunk c e rng statuses released) t =
      process_chunk-IsTracked status_text failure_text id p c e rng statuses released w t
  PollerStep-IsTracked id p {w} (harvest_pass c e released answers) t =
      harvest_due-IsTracked id p c e released answers w t

  -- The pollers lose no job: a job whose hash is whole and that runs, waits in its priority's queue,
  -- for its delay or for its harvest, or is over, is still so after any chunks of checks and any due
  -- harvests, whatever the engines, the storage, the database and the callbacks answered and
  -- whichever jobs they were about.
  pub PollerRun-IsTracked :
      (id p : ℕ) {w v : PollWorld} → PollerRun w v → IsTracked id p w.store → IsTracked id p v.store
  PollerRun-IsTracked id p (stop w) t = t
  PollerRun-IsTracked id p (then_step run step) t =
      PollerStep-IsTracked id p step (PollerRun-IsTracked id p run t)
