-- ===== src/Tests/Passes.antt =====
-- The theorems on whole passes of the poller and the submit worker at concrete inputs.
use tuzka_as_a_service.Prelude.{refl, ◌≤◌, true, none, some, [], ◌∷◌, codes, update, arith, max}
use tuzka_as_a_service.Redis.State.{storing, JobState, whole, absent}
use tuzka_as_a_service.Poller.Rows.{PolledRow, PollWorld}
use tuzka_as_a_service.Poller.Harvest.{
  transport_error, HarvestAnswer, stored, all_sent, sent_then, status_read, Surroundings, harvest,
}
use tuzka_as_a_service.Poller.Settle.{IsSettled, harvest-IsSettled}
use tuzka_as_a_service.Poller.Reports.{IsReportedOnce, HarvestCall, harvests, harvests_report_once}
use tuzka_as_a_service.Poller.Pass.{PollSettings, harvest_due}
use tuzka_as_a_service.Poller.Tracked.{IsTracked}
use tuzka_as_a_service.Poller.Run.{stop, then_step, harvest_pass, PollerRun-IsTracked}
use tuzka_as_a_service.Submit.Tick.{TickRun, run_tick}
use tuzka_as_a_service.Submit.Unstored.{unstored}
use tuzka_as_a_service.Submit.Admission.{unstored-run_tick}
use tuzka_as_a_service.Tests.Keyspace.{running_page, empty}
use tuzka_as_a_service.Tests.Dispatching.{
  whole_numbers, seconds, surroundings, domains, world, unreached,
}

abbrev row : PolledRow
row = record {
  status = storing;
  dispatched_at = some 20;
  engine_job_id = some (codes "e1");
  backend_id = some 2;
  requeues = 0;
  attempts = [];
  error = none;
  engine_received_at = none;
  started_at = none;
  finished_at = none;
  stored_at = none;
  results = [];
}

-- The page 7 waits for its harvest.
abbrev stored_page : JobState
stored_page = record running_page { status = storing }

abbrev harvesting : PollWorld
harvesting = record {
  store = record empty {
    jobs = update 7 (whole stored_page) (λ id. absent);
    pending_harvest = (7, 40) ∷ [];
  };
  rows = update 7 (some row) (λ id. none);
  failures = [];
  reported = [];
}

abbrev poller : Surroundings
poller = record {
  now = 50;
  state_ttl = 600;
  marking = λ id. status_read true;
  presigned_ttl = 300;
  uniform = λ bound. bound;
  fromisoformat = λ t. none;
  compress = λ bytes. bytes;
  presign = λ path. path;
}

abbrev settings : PollSettings
settings = record {
  poll_backoff_initial = 2;
  poll_backoff_max = 30;
  harvest_concurrency = 4;
  tick = 5;
  max_requeues = 3;
}

-- The outputs were stored, and the last call after the done event failed.
abbrev half_sent : HarvestAnswer
half_sent = stored (λ fmt. 1 ∷ []) none (sent_then (transport_error (codes "reset")))

abbrev all_stored : HarvestAnswer
all_stored = stored (λ fmt. 1 ∷ []) none all_sent

tracked : IsTracked 7 5 harvesting.store
tracked = record { hash = refl; place = refl }

PollerRun-IsTracked_example :
    IsTracked 7 5 (harvest_due settings poller 0 (λ id. half_sent) harvesting).store
PollerRun-IsTracked_example =
    PollerRun-IsTracked (λ s. []) (λ f. []) 7 5
      (then_step (stop harvesting) (harvest_pass settings poller 0 (λ id. half_sent))) tracked

harvest-IsSettled_example : IsSettled 7 (harvest poller 7 stored_page none all_stored harvesting)
harvest-IsSettled_example =
    harvest-IsSettled poller 7 stored_page none all_stored harvesting row refl refl

abbrev call : HarvestAnswer → HarvestCall
call answer = record { by = poller; job_id = 7; state = stored_page; run = none; answer = answer }

harvests_report_once_example :
    IsReportedOnce (harvests (call half_sent ∷ call all_stored ∷ []) harvesting)
harvests_report_once_example =
    harvests_report_once (call half_sent ∷ call all_stored ∷ []) harvesting (λ j. omega arith)

abbrev ticking : TickRun
ticking = record {
  dispatch = surroundings;
  backends = record { id = 2; max_inflight = 4; priority = 0 } ∷ [];
  healthy = λ b. true;
  served = λ b. domains;
  url = λ b. codes "http://gpu";
  image = λ id. none;
  answer = λ id. unreached;
  health_cache_seconds = 10;
  unstored_job_max = 100;
}

unstored-run_tick_example :
    unstored (run_tick whole_numbers seconds 0 ticking world).store ≤ max 100 (unstored world.store)
unstored-run_tick_example = unstored-run_tick whole_numbers seconds 0 ticking world
