-- ===== src/Poller/Settle.antt =====
-- Where a harvest leaves its job (app/workers/poller/worker.py).
use tuzka_as_a_service.Prelude.{
  ℕ, ◌+◌, ◌≡◌, ◌⊎◌, refl, ap, Bool, true, false, Option, none, some, List, Text, arith,
  if◌then◌else◌, member, Bool-cases, inl, inr, member-srem,
}
use tuzka_as_a_service.Redis.ZSet.{zhas, zscore-zrem, zscore-zadd}
use tuzka_as_a_service.Redis.State.{JobState, JobStatus, done, failed, EngineRun, Store}
use tuzka_as_a_service.Redis.Queue.{orphan_fields}
use tuzka_as_a_service.Redis.Harvest.{reschedule_harvest}
use tuzka_as_a_service.Redis.Lifecycle.{set_done, set_failed}
use tuzka_as_a_service.Poller.Plan.{Attempt}
use tuzka_as_a_service.Poller.Rows.{
  JobResult, PolledRow, PollWorld, row_done, is_done, unless_done, upsert_all,
}
use tuzka_as_a_service.Poller.Harvest.{
  HarvestExn, is_transient_harvest_error, Report, all_sent, not_sent, sent_then, HarvestAnswer,
  unavailable, broken, stored, text_of, Marking, status_read, done_row, Surroundings, mark_failed,
  harvest_failed, record_done, harvest, recorded, set_and_reported, result_rows, run_of,
  unavailable_attempt,
}

-- The job stays queued for another harvest.
abbrev pub Waits : ℕ → PollWorld → Type 0
Waits id w = zhas id w.store.pending_harvest ≡ true

abbrev pub row_status : Option PolledRow → Option JobStatus
row_status none = none
row_status (some row) = some row.status

-- The job is over: it holds no slot, no harvest waits for it, and its hash and its row say both that
-- it is done, or both that it failed.
pub record IsSettled (id : ℕ) (w : PollWorld) : Type 0 where
  pub outcome : JobStatus
  pub over : (outcome ≡ done) ⊎ (outcome ≡ failed)
  pub no_slot : member id w.store.inflight ≡ false
  pub no_harvest : zhas id w.store.pending_harvest ≡ false
  pub hash_status : (orphan_fields (w.store.jobs id)).status ≡ some outcome
  pub status_in_row : row_status (w.rows id) ≡ some outcome

set_done_settles :
    (id ttl now : ℕ) (given : Option JobState) (r : Store)
    → let t = (set_done id ttl given now r).0 in
      (member id t.inflight ≡ false)
      × (zhas id t.pending_harvest ≡ false)
      × ((orphan_fields (t.jobs id)).status ≡ some done)
unfolding set_done
set_done_settles id ttl now given r = (
  ground (arith, member-srem id id r.inflight),
  ground (arith, zscore-zrem id id r.pending_harvest),
  ground arith,
)

set_failed_settles :
    (id ttl now : ℕ) (error : Text) (r : Store)
    → let t = (set_failed id error ttl now r).0 in
      (member id t.inflight ≡ false)
      × (zhas id t.pending_harvest ≡ false)
      × ((orphan_fields (t.jobs id)).status ≡ some failed)
unfolding set_failed
set_failed_settles id ttl now error r = (
  ground (arith, member-srem id id r.inflight),
  ground (arith, zscore-zrem id id r.pending_harvest),
  ground arith,
)

done_status : (row : Option PolledRow) → row_done row ≡ true → row_status row ≡ some done
done_status none h = cc h
done_status (some row) h = ground (arith, h)

-- A committed failure is in the row, unless that is done.
mark_failed-rows :
    (e : Surroundings) (id : ℕ) (s : JobState) (error : Text) (attempt : Option Attempt)
    (run : Option EngineRun) (w : PollWorld) (row : PolledRow)
    → w.rows id ≡ some row
    → row_done (w.rows id) ≡ false
    → row_status ((mark_failed (status_read true) e id s error attempt run w).rows id) ≡ some failed
unfolding mark_failed
mark_failed-rows e id s error attempt run w row h d = ground arith

mark_failed_done :
    (e : Surroundings) (id : ℕ) (s : JobState) (error : Text) (attempt : Option Attempt)
    (run : Option EngineRun) (w : PollWorld)
    → row_done (w.rows id) ≡ true
    → mark_failed (status_read true) e id s error attempt run w
      ≡ record w { store = (set_done id e.state_ttl (some s) e.now w.store).0 }
unfolding mark_failed
mark_failed_done e id s error attempt run w d = rw d refl

mark_failed_store :
    (e : Surroundings) (id : ℕ) (s : JobState) (error : Text) (attempt : Option Attempt)
    (run : Option EngineRun) (w : PollWorld)
    → row_done (w.rows id) ≡ false
    → (mark_failed (status_read true) e id s error attempt run w).store
      ≡ (set_failed id error e.state_ttl e.now w.store).0
unfolding mark_failed
mark_failed_store e id s error attempt run w d = rw d refl

reschedule_Waits :
    (id delay now : ℕ) (r : Store)
    → zhas id (reschedule_harvest id delay now r).pending_harvest ≡ true
unfolding reschedule_harvest
reschedule_Waits id delay now r = ground (arith, zscore-zadd id (now + delay) id r.pending_harvest)

is_done-done : (status : JobStatus) → is_done status ≡ true → status ≡ done
is_done-done status h = ground (arith, h)

record_done-rows :
    (e : Surroundings) (id : ℕ) (run : EngineRun) (results : List JobResult)
    (rows : ℕ → Option PolledRow) (row : PolledRow)
    → rows id ≡ some row
    → (v : PolledRow) × ((record_done e id run results rows).0 id ≡ some v) × (v.status ≡ done)
unfolding record_done
record_done-rows e id run results rows row h =
    let v : PolledRow =
      unless_done (done_row e run) (record row { results = upsert_all results row.results }) in
    (
      v,
      ground (arith, h),
      elim (Bool-cases (is_done row.status)) [
        | inl d ↦ rw d (is_done-done row.status d)
        | inr d ↦ rw d refl
      ],
    )

mark_failed-IsSettled :
    (m : Marking) (e : Surroundings) (id : ℕ) (s : JobState) (error : Text)
    (attempt : Option Attempt) (run : Option EngineRun) (w : PollWorld) (row : PolledRow)
    → m ≡ status_read true
    → w.rows id ≡ some row
    → IsSettled id (mark_failed m e id s error attempt run w)
mark_failed-IsSettled m e id s error attempt run w row c h =
    let as_done = set_done_settles id e.state_ttl e.now (some s) w.store in
    let as_failed = set_failed_settles id e.state_ttl e.now error w.store in
    rw c (elim (Bool-cases (row_done (w.rows id))) [
      | inl d ↦ rw (mark_failed_done e id s error attempt run w d) (record {
        outcome = done;
        over = inl refl;
        no_slot = as_done.0;
        no_harvest = as_done.1;
        hash_status = as_done.2;
        status_in_row = done_status (w.rows id) d;
      })
      | inr d ↦ record {
        outcome = failed;
        over = inr refl;
        no_slot = rw (mark_failed_store e id s error attempt run w d) as_failed.0;
        no_harvest = rw (mark_failed_store e id s error attempt run w d) as_failed.1;
        hash_status = rw (mark_failed_store e id s error attempt run w d) as_failed.2;
        status_in_row = mark_failed-rows e id s error attempt run w row h d;
      }
    ])

harvest_failed-IsSettled :
    (e : Surroundings) (id : ℕ) (s : JobState) (run : EngineRun) (error : HarvestExn)
    (w : PollWorld) (row : PolledRow)
    → e.marking id ≡ status_read true
    → w.rows id ≡ some row
    → if is_transient_harvest_error error
      then Waits id (harvest_failed e id s run error w)
      else IsSettled id (harvest_failed e id s run error w)
unfolding harvest_failed
harvest_failed-IsSettled e id s run error w row c h =
    elim (Bool-cases (is_transient_harvest_error error)) [
      | inl t ↦ rw t (reschedule_Waits id _ e.now w.store)
      | inr t ↦
          rw t
            (mark_failed-IsSettled (e.marking id) e id s (text_of error) none (some run) w row c h)
    ]

-- Whether the harvest ended with an error that is worth another harvest.
abbrev report_is_transient : Report → Bool
report_is_transient all_sent = false
report_is_transient (not_sent error) = is_transient_harvest_error error
report_is_transient (sent_then error) = is_transient_harvest_error error

abbrev pub is_transient : HarvestAnswer → Bool
is_transient (unavailable text) = false
is_transient (broken error) = is_transient_harvest_error error
is_transient (stored content (some error) report) = is_transient_harvest_error error
is_transient (stored content none report) = report_is_transient report

-- After the outputs were recorded, `set_done` and the report.
abbrev pub stored_world :
    Surroundings → ℕ → JobState → EngineRun → (Text → List ℕ) → Report → PollWorld → PollWorld
stored_world e id s run content report w =
    set_and_reported e id s (record_done e id run (result_rows e content s) w.rows).1 report
      (recorded e id s run content w)

-- A harvest that ends with a transient error of the storage or the database keeps its job queued
-- for another harvest. Any other harvest of a job that has its row settles it, if the transaction of a
-- failure is committed: the job holds no slot, no harvest waits for it, and its hash and its row both
-- say that it is done or both that it failed.
pub harvest-IsSettled :
    (e : Surroundings) (id : ℕ) (s : JobState) (run : Option EngineRun) (answer : HarvestAnswer)
    (w : PollWorld) (row : PolledRow)
    → e.marking id ≡ status_read true
    → w.rows id ≡ some row
    → if is_transient answer
      then Waits id (harvest e id s run answer w)
      else IsSettled id (harvest e id s run answer w)
unfolding harvest
harvest-IsSettled e id s run (unavailable text) w row c h =
    mark_failed-IsSettled (e.marking id) e id s text (some (unavailable_attempt e s text))
      (some (run_of s run)) w row c h
harvest-IsSettled e id s run (broken error) w row c h =
    harvest_failed-IsSettled e id s (run_of s run) error w row c h
harvest-IsSettled e id s run (stored content early report) w row c h =
    let q = run_of s run in
    let (v, there, ended) = record_done-rows e id q (result_rows e content s) w.rows row h in
    elim early
      as (λ x.
        if is_transient (stored content x report)
        then Waits id (harvest e id s run (stored content x report) w)
        else IsSettled id (harvest e id s run (stored content x report) w)) [
          | some error ↦
              harvest_failed-IsSettled e id s q error (recorded e id s q content w) v c there
          | none ↦
              elim report
                as (λ x.
                  if report_is_transient x
                  then Waits id (harvest e id s run (stored content none x) w)
                  else IsSettled id (harvest e id s run (stored content none x) w)) [
                    | not_sent error ↦
                        harvest_failed-IsSettled e id s q error
                          (stored_world e id s q content (not_sent error) w) v c there
                    | sent_then error ↦
                        harvest_failed-IsSettled e id s q error
                          (stored_world e id s q content (sent_then error) w) v c there
                    | all_sent ↦
                        let as_done = set_done_settles id e.state_ttl e.now (some s) w.store in
                        record {
                          outcome = done;
                          over = inl refl;
                          no_slot = as_done.0;
                          no_harvest = as_done.1;
                          hash_status = as_done.2;
                          status_in_row = rw there (ap (λ x. some x) ended);
                        }
                  ]
        ]
