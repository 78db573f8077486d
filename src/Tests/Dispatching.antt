-- ===== src/Tests/Dispatching.antt =====
-- The theorems on dispatch, the submit worker and the reaper at concrete inputs.
use tuzka_as_a_service.Prelude.{
  ℕ, ◌+◌, ◌*◌, ◌/◌, ◌≡◌, refl, true, false, none, some, List, [], ◌∷◌, arith, ◌⊎◌, All, codes, leb,
  Text, least, subset, text_in, text_eq,
}
use tuzka_as_a_service.Redis.ZSet.{zhas}
use tuzka_as_a_service.Prelude.Int.{pos, pos_part, ◌+ℤ◌}
use tuzka_as_a_service.Redis.State.{queued, whole, Store}
use tuzka_as_a_service.Retry.{transport_error}
use tuzka_as_a_service.Dispatch.Number.{Number}
use tuzka_as_a_service.Dispatch.Types.{BackendSlot, Domains, PendingJob, serves, expected_finish}
use tuzka_as_a_service.Dispatch.Allocate.{
  candidates, choose, choose_among, pool_of, rotate_pick, allocate_scored,
}
use tuzka_as_a_service.Dispatch.Choice.{IsPick, choose-IsPick}
use tuzka_as_a_service.Dispatch.Capacity.{
  IsFilled, InOrder, ServedBy, allocate_scored-IsFilled, allocate_scored_placed,
}
use tuzka_as_a_service.Submit.{Run, Target, World, Answer, refused, dispatch_job}
use tuzka_as_a_service.Submit.Safe.{is_kept, dispatch_job_kept}
use tuzka_as_a_service.Submit.Budget.{IsInBudgetAfter, dispatch_job-IsInBudget}
use tuzka_as_a_service.Reaper.{Job, Reason, reap_stale_jobs}
use tuzka_as_a_service.Reaper.Sweep.{HasFailed, reap_spares_harvests, reap_fails}
use tuzka_as_a_service.Tests.Keyspace.{page, claimed}

pub total : (a b : ℕ) → (leb a b ≡ true) ⊎ (leb b a ≡ true)
total a b = ground arith

pub trans : (a b c : ℕ) → leb a b ≡ true → leb b c ≡ true → leb a c ≡ true
trans a b c h k = ground arith

-- Whole numbers in place of floats.
abbrev pub whole_numbers : Number
whole_numbers = record {
  Val = ℕ;
  of_nat = λ n. n;
  of_int = pos_part;
  times = λ a b. a * b;
  over = λ a b. a / b;
  plus = λ a b. a + b;
  le = leb;
  le_total = total;
  le_trans = trans;
}

abbrev slots : List BackendSlot
slots =
    record {
      backend = record { id = 1; max_inflight = 2; priority = 0 };
      free = 1;
      domains = (codes "default", codes "alto" ∷ []) ∷ [];
      inflight = pos 1;
      batches = λ b. pos 0;
      assigned = 0;
    }
    ∷ record {
      backend = record { id = 2; max_inflight = 4; priority = 0 };
      free = 4;
      domains = (codes "default", codes "alto" ∷ []) ∷ [];
      inflight = pos 0;
      batches = λ b. pos 0;
      assigned = 0;
    }
    ∷ []

abbrev job : PendingJob whole_numbers
job = record {
  job_id = 7;
  score = 10;
  domain = codes "default";
  outputs = codes "alto" ∷ [];
  avoid = [];
  megapixels = 8;
  batch_id = some 3;
}

abbrev pub seconds : ℕ → Text → ℕ
seconds backend domain = 2

abbrev second_slot : ℕ × BackendSlot
second_slot = (
  1,
  record {
    backend = record { id = 2; max_inflight = 4; priority = 0 };
    free = 4;
    domains = (codes "default", codes "alto" ∷ []) ∷ [];
    inflight = pos 0;
    batches = λ b. pos 0;
    assigned = 0;
  },
)

second_chosen : choose whole_numbers seconds 0 slots 0 job ≡ some second_slot
unfolding choose choose_among pool_of rotate_pick serves expected_finish ◌+ℤ◌ least subset text_in
    text_eq
second_chosen = refl

choose-IsPick_example :
    IsPick whole_numbers seconds 0 job (candidates whole_numbers seconds 0 slots job) second_slot
choose-IsPick_example = choose-IsPick whole_numbers seconds 0 slots 0 job second_slot second_chosen

allocate_scored-IsFilled_example :
    IsFilled whole_numbers seconds 0
      (allocate_scored whole_numbers seconds 0 slots (job ∷ job ∷ [])).1
      slots
      (allocate_scored whole_numbers seconds 0 slots (job ∷ job ∷ [])).0
      1
allocate_scored-IsFilled_example =
    allocate_scored-IsFilled whole_numbers seconds 0 slots (job ∷ job ∷ []) 1

allocate_scored_placed_example :
    All
      (ServedBy whole_numbers seconds 0 slots)
      (allocate_scored whole_numbers seconds 0 slots (job ∷ job ∷ [])).1
    × InOrder whole_numbers seconds 0
        (allocate_scored whole_numbers seconds 0 slots (job ∷ job ∷ [])).1
        (job ∷ job ∷ [])
allocate_scored_placed_example =
    allocate_scored_placed whole_numbers seconds 0 slots (job ∷ job ∷ [])

abbrev pub surroundings : Run
surroundings = record {
  now = 100;
  next_poll = 102;
  state_ttl = 600;
  max_requeues = 3;
  row_written = false;
  outcome_written = true;
  uniform = λ bound. bound;
  number_text = λ n. codes "3";
}

abbrev target : Target
target = record { id = 2; url = codes "http://gpu" }

abbrev pub domains : Domains
domains = (codes "default", codes "alto" ∷ []) ∷ []

abbrev pub world : World
world = record {
  store = claimed;
  rows = λ id. record {
    status = queued;
    dispatched_at = none;
    engine_job_id = none;
    backend_id = none;
    requeues = 0;
    attempts = [];
    error = none;
    finished_at = none;
  };
  health_cache = λ b. none;
  failures = [];
}

abbrev pub unreached : Answer
unreached = refused (transport_error (codes "refused"))

dispatch_job_kept_example :
    is_kept 7 5 (dispatch_job surroundings 7 10 target domains page none unreached world).store
    ≡ true
dispatch_job_kept_example =
    dispatch_job_kept surroundings 7 10 target domains page none unreached world page refl

dispatch_job-IsInBudget_example :
    IsInBudgetAfter surroundings 3 7
      (dispatch_job surroundings 7 10 target domains page none unreached world)
dispatch_job-IsInBudget_example =
    dispatch_job-IsInBudget surroundings 7 10 target domains page none unreached world 3
      (omega arith) refl (refl, omega arith)

abbrev old_job : Job
old_job = record {
  id = 7;
  status = queued;
  domain = none;
  submitted_at = 10;
  dispatched_at = none;
  error = none;
  finished_at = none;
}

abbrev harvest_waits : Store
harvest_waits = record claimed { pending_harvest = (7, 50) ∷ [] }

abbrev reasons : Reason → Text
reasons r = codes "timed out"

reap_spares_harvests_example :
    ((reap_stale_jobs reasons (old_job ∷ []) 5000 60 (λ d. 60) 600 harvest_waits).0.jobs 7
      ≡ whole page)
    × (zhas 7
          (reap_stale_jobs reasons
            (old_job ∷ [])
            5000
            60
            (λ d. 60)
            600
            harvest_waits).0.pending_harvest
        ≡ true)
reap_spares_harvests_example =
    reap_spares_harvests reasons (old_job ∷ []) 5000 60 (λ d. 60) 600 harvest_waits 7 refl

reap_fails_example :
    All
      (λ (stale, reason).
        HasFailed (reap_stale_jobs reasons (old_job ∷ []) 5000 60 (λ d. 60) 600 claimed).0 stale.id)
      (reap_stale_jobs reasons (old_job ∷ []) 5000 60 (λ d. 60) 600 claimed).1
reap_fails_example = reap_fails reasons (old_job ∷ []) 5000 60 (λ d. 60) 600 claimed
