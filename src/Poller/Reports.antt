-- ===== src/Poller/Reports.antt =====
-- Done events of any number of harvests, by any pollers (app/workers/poller/worker.py).
use tuzka_as_a_service.Prelude.{
  ℕ, ◌≡◌, ◌≤◌, refl, Option, none, some, List, [], ◌∷◌, Text, arith, if◌then◌else◌, Bool-cases, inl,
  inr,
}
use tuzka_as_a_service.Redis.State.{JobState, EngineRun}
use tuzka_as_a_service.Poller.Plan.{Attempt}
use tuzka_as_a_service.Poller.Window.{times}
use tuzka_as_a_service.Poller.Rows.{PollWorld, row_done}
use tuzka_as_a_service.Poller.Harvest.{
  HarvestExn, is_transient_harvest_error, Report, all_sent, not_sent, sent_then, HarvestAnswer,
  unavailable, broken, stored, text_of, Marking, unread, status_read, Surroundings, mark_failed,
  harvest_failed, record_done, harvest, recorded, set_and_reported, result_rows, run_of,
  unavailable_attempt, after_report,
}

-- What matters of a world: which rows are done, and the events.
pub record SameReports (w v : PollWorld) : Type 0 where
  pub done_rows : (j : ℕ) → row_done (v.rows j) ≡ row_done (w.rows j)
  pub events : v.reported ≡ w.reported

mark_failed-SameReports :
    (m : Marking) (e : Surroundings) (id : ℕ) (s : JobState) (error : Text)
    (attempt : Option Attempt) (run : Option EngineRun) (w : PollWorld)
    → SameReports w (mark_failed m e id s error attempt run w)
unfolding mark_failed
mark_failed-SameReports unread e id s error attempt run w = record {
  done_rows = λ j. refl;
  events = refl;
}
mark_failed-SameReports (status_read committed) e id s error attempt run w = record {
  done_rows = λ j. ground arith;
  events = ground arith;
}

harvest_failed-SameReports :
    (e : Surroundings) (id : ℕ) (s : JobState) (run : EngineRun) (error : HarvestExn)
    (w : PollWorld)
    → SameReports w (harvest_failed e id s run error w)
unfolding harvest_failed
harvest_failed-SameReports e id s run error w =
    elim (Bool-cases (is_transient_harvest_error error)) [
      | inl t ↦ rw t (record { done_rows = λ j. refl; events = refl })
      | inr t ↦
          rw t (mark_failed-SameReports (e.marking id) e id s (text_of error) none (some run) w)
    ]

-- Each job's done event was published at most once, and only for a row that is done.
abbrev pub IsReportedOnce : PollWorld → Type 0
IsReportedOnce w = (j : ℕ) → times j w.reported ≤ (if row_done (w.rows j) then 1 else 0)

SameReports-IsReportedOnce :
    (w v : PollWorld) → SameReports w v → IsReportedOnce w → IsReportedOnce v
SameReports-IsReportedOnce w v r h = λ j. rw (r.done_rows j, r.events) (h j)

recorded-IsReportedOnce :
    (e : Surroundings) (id : ℕ) (s : JobState) (run : EngineRun) (content : Text → List ℕ)
    (w : PollWorld)
    → IsReportedOnce w
    → IsReportedOnce (recorded e id s run content w)
unfolding record_done
recorded-IsReportedOnce e id s run content w h = λ j. ground (arith, h j)

stored-IsReportedOnce :
    (e : Surroundings) (id : ℕ) (s : JobState) (run : EngineRun) (content : Text → List ℕ)
    (report : Report) (w : PollWorld)
    → IsReportedOnce w
    → IsReportedOnce (
        set_and_reported e id s
          (record_done e id run (result_rows e content s) w.rows).1
          report
          (recorded e id s run content w))
unfolding record_done
stored-IsReportedOnce e id s run content report w h = λ j. ground (arith, h j)

after_report-IsReportedOnce :
    (e : Surroundings) (id : ℕ) (s : JobState) (run : EngineRun) (report : Report) (w : PollWorld)
    → IsReportedOnce w
    → IsReportedOnce (after_report e id s run report w)
after_report-IsReportedOnce e id s run all_sent w h = h
after_report-IsReportedOnce e id s run (not_sent error) w h =
    SameReports-IsReportedOnce w _ (harvest_failed-SameReports e id s run error w) h
after_report-IsReportedOnce e id s run (sent_then error) w h =
    SameReports-IsReportedOnce w _ (harvest_failed-SameReports e id s run error w) h

harvest-IsReportedOnce :
    (e : Surroundings) (id : ℕ) (s : JobState) (run : Option EngineRun) (answer : HarvestAnswer)
    (w : PollWorld)
    → IsReportedOnce w
    → IsReportedOnce (harvest e id s run answer w)
unfolding harvest
harvest-IsReportedOnce e id s run (unavailable text) w h =
    SameReports-IsReportedOnce w _
      (mark_failed-SameReports (e.marking id) e id s text (some (unavailable_attempt e s text))
        (some (run_of s run)) w)
      h
harvest-IsReportedOnce e id s run (broken error) w h =
    SameReports-IsReportedOnce w _ (harvest_failed-SameReports e id s (run_of s run) error w) h
harvest-IsReportedOnce e id s run (stored content (some error) report) w h =
    let v = recorded e id s (run_of s run) content w in
    SameReports-IsReportedOnce v _ (harvest_failed-SameReports e id s (run_of s run) error v)
      (recorded-IsReportedOnce e id s (run_of s run) content w h)
harvest-IsReportedOnce e id s run (stored content none report) w h =
    after_report-IsReportedOnce e id s (run_of s run) report _
      (stored-IsReportedOnce e id s (run_of s run) content report w h)

-- One harvest: by which poller, with which snapshot, and how its calls went.
pub record HarvestCall : Type 0 where
  pub by : Surroundings
  pub job_id : ℕ
  pub state : JobState
  pub run : Option EngineRun
  pub answer : HarvestAnswer

unfoldable pub harvests : List HarvestCall → PollWorld → PollWorld
unfolding harvest
harvests [] w = w
harvests (c ∷ calls) w = harvests calls (harvest c.by c.job_id c.state c.run c.answer w)

-- However many harvests there are, by any pollers, with any snapshots and any failures on the way:
-- a job's done event is published at most once, and only if its row is done in the end, if the same
-- held before them.
pub harvests_report_once :
    (calls : List HarvestCall) (w : PollWorld)
    → IsReportedOnce w
    → IsReportedOnce (harvests calls w)
unfolding harvests
harvests_report_once [] w h = h
harvests_report_once (c ∷ calls) w h =
    harvests_report_once calls _ (harvest-IsReportedOnce c.by c.job_id c.state c.run c.answer w h)
