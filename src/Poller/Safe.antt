-- ===== src/Poller/Safe.antt =====
-- A pass of the poller as a whole (app/workers/poller/worker.py).
use tuzka_as_a_service.Prelude.{
  true, ℕ, ◌+◌, ◌≡◌, refl, Bool, false, Option, none, some, List, [], ◌∷◌, Text, arith, ◌==◌,
  if_either, member, keep, Bool-cases, inl, inr, ◌∙◌, max, ◌*◌,
}
use tuzka_as_a_service.Redis.ZSet.{ZSet, zhas, zrem, zscore-zrem}
use tuzka_as_a_service.Redis.State.{JobState, EngineRun, Store, get_job}
use tuzka_as_a_service.Redis.Harvest.{zrem_all, forget_harvests, due_harvest_ids}
use tuzka_as_a_service.Retry.{backoff}
use tuzka_as_a_service.Poller.Plan.{
  Attempt, PollStatus, PollOutcome, FailureText, FailedPoll, RequeuedPoll, PollPlan, plan_polls,
}
use tuzka_as_a_service.Poller.Rows.{PollWorld, row_done}
use tuzka_as_a_service.Poller.Harvest.{
  HarvestExn, is_transient_harvest_error, Report, all_sent, not_sent, sent_then, HarvestAnswer,
  unavailable, broken, stored, text_of, Marking, unread, status_read, Surroundings, mark_failed,
  harvest_failed, record_done, harvest, recorded, set_and_reported, result_rows, run_of,
  unavailable_attempt, after_report,
}
use tuzka_as_a_service.Poller.Pass.{
  PollSettings, release_all, release_for_harvest, schedule_polls, fail_polls, requeue_in_redis,
  requeue_all, requeue_polls, carry_out, process_chunk, signal_if_done, harvest_all, harvest_found,
  is_missing, harvest_due,
}
use tuzka_as_a_service.Poller.Tracked.{
  IsTracked, release_done-IsTracked, schedule_next_poll-IsTracked, set_failed-IsTracked,
  set_done-IsTracked, count_requeue-IsTracked, reschedule_harvest-IsTracked,
  release_and_requeue-IsTracked, signal_poll-IsTracked,
}

module _ (id p : ℕ) where
  abbrev Tracked : PollWorld → Type 0
  Tracked w = IsTracked id p w.store

  mark_failed-Tracked :
      (m : Marking) (e : Surroundings) (j : ℕ) (s : JobState) (error : Text)
      (attempt : Option Attempt) (run : Option EngineRun) (w : PollWorld)
      → Tracked w
      → Tracked (mark_failed m e j s error attempt run w)
  unfolding mark_failed
  mark_failed-Tracked unread e j s error attempt run w t = t
  mark_failed-Tracked (status_read committed) e j s error attempt run w t =
      if_either Tracked (row_done (w.rows j)) _ _
        (set_done-IsTracked id p j w.store t e.state_ttl e.now (some s))
        (set_failed-IsTracked id p j w.store t error e.state_ttl e.now)

  harvest_failed-Tracked :
      (e : Surroundings) (j : ℕ) (s : JobState) (run : EngineRun) (error : HarvestExn)
      (w : PollWorld)
      → Tracked w
      → Tracked (harvest_failed e j s run error w)
  unfolding harvest_failed
  harvest_failed-Tracked e j s run error w t =
      if_either Tracked (is_transient_harvest_error error) _ _
        (reschedule_harvest-IsTracked id p j w.store t (backoff e.uniform (s.harvest_attempts + 1))
          e.now)
        (mark_failed-Tracked (e.marking j) e j s (text_of error) none (some run) w t)

  after_report-Tracked :
      (e : Surroundings) (j : ℕ) (s : JobState) (run : EngineRun) (report : Report) (w : PollWorld)
      → Tracked w
      → Tracked (after_report e j s run report w)
  after_report-Tracked e j s run all_sent w t = t
  after_report-Tracked e j s run (not_sent error) w t = harvest_failed-Tracked e j s run error w t
  after_report-Tracked e j s run (sent_then error) w t = harvest_failed-Tracked e j s run error w t

  harvest-Tracked :
      (e : Surroundings) (j : ℕ) (s : JobState) (run : Option EngineRun) (answer : HarvestAnswer)
      (w : PollWorld)
      → Tracked w
      → Tracked (harvest e j s run answer w)
  unfolding harvest
  harvest-Tracked e j s run (unavailable text) w t =
      mark_failed-Tracked (e.marking j) e j s text (some (unavailable_attempt e s text))
        (some (run_of s run)) w t
  harvest-Tracked e j s run (broken error) w t =
      harvest_failed-Tracked e j s (run_of s run) error w t
  harvest-Tracked e j s run (stored content (some error) report) w t =
      harvest_failed-Tracked e j s (run_of s run) error (recorded e j s (run_of s run) content w) t
  harvest-Tracked e j s run (stored content none report) w t =
      after_report-Tracked e j s (run_of s run) report
        (set_and_reported e j s (record_done e j (run_of s run) (result_rows e content s) w.rows).1
          report (recorded e j s (run_of s run) content w))
        (set_done-IsTracked id p j w.store t e.state_ttl e.now (some s))

  release_all-IsTracked :
      (now : ℕ) (done : List PollOutcome) (r : Store)
      → IsTracked id p r
      → IsTracked id p (release_all now done r).0
  unfolding release_all
  release_all-IsTracked now [] r t = t
  release_all-IsTracked now (o ∷ done) r t =
      release_all-IsTracked now done _
        (release_done-IsTracked id p o.job_id r t o.state (some o.run) now)

  schedule_polls-Tracked :
      (c : PollSettings) (now : ℕ) (polls : List PollOutcome) (w : PollWorld)
      → Tracked w
      → Tracked (schedule_polls c now polls w)
  unfolding schedule_polls
  schedule_polls-Tracked c now [] w t = t
  schedule_polls-Tracked c now (o ∷ rest) w t =
      schedule_polls-Tracked c now rest _
        (schedule_next_poll-IsTracked id p o.job_id w.store t _ now)

  fail_polls-Tracked :
      (e : Surroundings) (failure_text : FailureText → Text) (polls : List FailedPoll)
      (w : PollWorld)
      → Tracked w
      → Tracked (fail_polls e failure_text polls w)
  unfolding fail_polls
  fail_polls-Tracked e failure_text [] w t = t
  fail_polls-Tracked e failure_text (f ∷ rest) w t = fail_polls-Tracked e failure_text rest _ (
      mark_failed-Tracked (status_read true) e f.outcome.job_id f.outcome.state
        (failure_text f.error) (some f.attempt) (some f.outcome.run) w t)

  requeue_all-Tracked :
      (e : Surroundings) (polls : List RequeuedPoll) (w : PollWorld)
      → Tracked w
      → Tracked (requeue_all e polls w)
  unfolding requeue_all requeue_in_redis
  requeue_all-Tracked e [] w t = t
  requeue_all-Tracked e (q ∷ rest) w t =
      let s = q.outcome.state in
      requeue_all-Tracked e rest _ (
        count_requeue-IsTracked id p q.outcome.job_id _ (
          release_and_requeue-IsTracked id p q.outcome.job_id w.store t s.submitted_at e.state_ttl
            q.delay s.backend_id e.now))

  forgotten :
      (ids : List ℕ) (z : ZSet) → member id ids ≡ false → zhas id (zrem_all ids z) ≡ zhas id z
  forgotten [] z h = refl
  forgotten (j ∷ ids) z h =
      forgotten ids (zrem j z) (ground arith) ∙ ground (arith, zscore-zrem j id z)

  member-keep : (q : ℕ → Bool) (ids : List ℕ) → q id ≡ false → member id (keep q ids) ≡ false
  member-keep q [] h = refl
  member-keep q (j ∷ ids) h = elim (Bool-cases (j == id)) [
    | inl e ↦ let k : j ≡ id = ground arith in rw (k, h) (member-keep q ids h)
    | inr e ↦ ground (arith, member-keep q ids h)
  ]

  forget_harvests-IsTracked :
      (ids : List ℕ) (r : Store)
      → IsTracked id p r
      → IsTracked id p (forget_harvests (keep (is_missing r) ids) r)
  unfolding forget_harvests
  forget_harvests-IsTracked ids r t =
      let there : is_missing r id ≡ false = ground (arith, t.hash) in
      record {
        hash = t.hash;
        place =
            rw
              (forgotten (keep (is_missing r) ids) r.pending_harvest
                (member-keep (is_missing r) ids there))
              t.place;
      }

  harvest_found-Tracked :
      (e : Surroundings) (j : ℕ) (found : Option JobState) (answer : HarvestAnswer) (w : PollWorld)
      → Tracked w
      → Tracked (harvest_found e j found answer w)
  harvest_found-Tracked e j none answer w t = t
  harvest_found-Tracked e j (some s) answer w t = harvest-Tracked e j s none answer w t

  harvest_all-Tracked :
      (e : Surroundings) (read : Store) (answers : ℕ → HarvestAnswer) (ids : List ℕ) (w : PollWorld)
      → Tracked w
      → Tracked (harvest_all e read answers ids w)
  unfolding harvest_all
  harvest_all-Tracked e read answers [] w t = t
  harvest_all-Tracked e read answers (j ∷ ids) w t =
      harvest_all-Tracked e read answers ids _
        (harvest_found-Tracked e j (get_job read j) (answers j) w t)

  signal_if_done-Tracked :
      (done : List PollOutcome) (w : PollWorld) → Tracked w → Tracked (signal_if_done done w)
  signal_if_done-Tracked [] w t = t
  signal_if_done-Tracked (o ∷ done) w t = signal_poll-IsTracked id p o.job_id w.store t

module _ (status_text : PollStatus → Text) (failure_text : FailureText → Text) where
  carry_out-Tracked :
      (id p : ℕ) (c : PollSettings) (e : Surroundings) (q : PollPlan) (w : PollWorld)
      → Tracked id p w
      → Tracked id p (carry_out status_text failure_text c e q w)
  unfolding carry_out release_for_harvest requeue_polls
  carry_out-Tracked id p c e q w t =
      let released = release_all-IsTracked id p e.now q.done_polls w.store t in
      let w1 = release_for_harvest e.now q.done_polls w in
      let scheduled = schedule_polls-Tracked id p c e.now q.running_polls w1 released in
      let w2 = schedule_polls c e.now q.running_polls w1 in
      let failed = fail_polls-Tracked id p e failure_text q.failed_polls w2 scheduled in
      let w3 = fail_polls e failure_text q.failed_polls w2 in
      signal_if_done-Tracked id p q.done_polls (requeue_polls e q.requeued_polls w3)
        (requeue_all-Tracked id p e q.requeued_polls w3 failed)

  pub process_chunk-IsTracked :
      (id p : ℕ) (c : PollSettings) (e : Surroundings) (rng : ℕ → ℕ → ℕ)
      (statuses : List PollOutcome) (released : ℕ) (w : PollWorld)
      → IsTracked id p w.store
      → IsTracked id p (process_chunk status_text failure_text c e rng statuses released w).0.store
  unfolding process_chunk
  process_chunk-IsTracked id p c e rng statuses released w t =
      carry_out-Tracked id p c e (plan_polls status_text statuses c.max_requeues e.now rng 0) w t

pub harvest_due-IsTracked :
    (id p : ℕ) (c : PollSettings) (e : Surroundings) (released : ℕ) (answers : ℕ → HarvestAnswer)
    (w : PollWorld)
    → IsTracked id p w.store
    → IsTracked id p (harvest_due c e released answers w).store
unfolding harvest_due
harvest_due-IsTracked id p c e released answers w t =
    let ids = due_harvest_ids (max (c.harvest_concurrency * 2) released) e.now w.store in
    harvest_all-Tracked id p e w.store answers ids
      (record w { store = forget_harvests (keep (is_missing w.store) ids) w.store })
      (forget_harvests-IsTracked id p ids w.store t)
