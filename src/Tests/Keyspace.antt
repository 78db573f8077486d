-- ===== src/Tests/Keyspace.antt =====
-- The theorems on the keyspace at concrete ones.
use tuzka_as_a_service.Prelude.{
  ℕ, ◌↔◌, In, ◌≡◌, refl, true, false, none, some, [], ◌∷◌, codes, update, member, arith, take,
}
use tuzka_as_a_service.Prelude.Int.{pos}
use tuzka_as_a_service.Redis.State.{queued, running, JobState, absent, whole, Store}
use tuzka_as_a_service.Redis.Queue.{
  QueueEntry, claim_pending, peek_pending, pending_levels, or_zero,
}
use tuzka_as_a_service.Redis.Lifecycle.{set_running, release_done}
use tuzka_as_a_service.Redis.Slots.{IsCounted}
use tuzka_as_a_service.Redis.Slots.Release.{Agrees}
use tuzka_as_a_service.Redis.Steps.{here, next, run, release, Reach-IsCounted}
use tuzka_as_a_service.Redis.Rebuild.{rebuild, rebuild-IsCounted}
use tuzka_as_a_service.Redis.Idempotence.{succeed, give_up, finish_with, SameCounters, finish_once}
use tuzka_as_a_service.Redis.Claims.{claims_disjoint}
use tuzka_as_a_service.Redis.Peek.{IsDescending, backlog, peek_pending-take}

-- A page of batch 3 with the priority 5, as a submit stored it.
abbrev pub page : JobState
page = record {
  status = queued;
  username = codes "anna";
  external_id = none;
  batch_id = some 3;
  fmt = codes "alto";
  domain = codes "default";
  outputs = codes "alto" ∷ [];
  options = [];
  ext = codes ".jpg";
  megapixels = 4;
  submitted_at = 10;
  priority = 5;
  trace = [];
  claimed_at = none;
  queue_score = none;
  avoid_backends = [];
  requeues = 0;
  engine_job_id = none;
  backend_url = none;
  backend_id = none;
  next_poll_at = none;
  last_poll = none;
  harvest_times = none;
  harvest_attempts = 0;
  error = none;
  finished_at = none;
}

abbrev pub empty : Store
empty = record {
  jobs = λ id. absent;
  expiry = λ id. 0;
  pending = λ p. [];
  levels = [];
  delayed = [];
  inflight = [];
  pending_harvest = [];
  load_queued = λ f. pos 0;
  load_inflight = λ f. pos 0;
  backend_inflight = λ b. pos 0;
  backend_batches = λ b p. none;
  batches = λ p. record { total = 2; done_pages = 0; failed_pages = 0 };
  submit_wakeup = 0;
  poll_wakeup = 0;
}

-- The page 7 was claimed, and no job is in flight.
abbrev pub claimed : Store
claimed = record empty { jobs = update 7 (whole page) (λ id. absent) }

claimed-IsCounted : IsCounted claimed
claimed-IsCounted = record {
  distinct = tt;
  slots = λ b. refl;
  loads = λ f. refl;
  pages = λ b p. refl;
}

abbrev pub running_page : JobState
running_page = record page {
  status = running;
  engine_job_id = some (codes "e1");
  backend_url = some (codes "http://gpu");
  backend_id = some 2;
  next_poll_at = some 30;
}

abbrev dispatched : Store
dispatched = set_running 7 (codes "e1") (codes "http://gpu") 2 600 30 claimed

running_page-Agrees : Agrees running_page (dispatched.jobs 7)
unfolding set_running
running_page-Agrees = record {
  stored = running_page;
  is_stored = refl;
  backend = refl;
  batch = refl;
  field = refl;
}

in_flight : member 7 dispatched.inflight ≡ true
unfolding set_running
in_flight = refl

Reach-IsCounted_example : IsCounted (release_done 7 running_page none 40 dispatched).0
Reach-IsCounted_example =
    Reach-IsCounted claimed (release_done 7 running_page none 40 dispatched).0 claimed-IsCounted (
      next (next here (run 7 (codes "e1") (codes "http://gpu") 2 600 30 page refl refl))
        (release 7 running_page none 40 in_flight running_page-Agrees))

-- The counters were lost while the page ran on the backend 2.
abbrev lost : Store
lost = record claimed { jobs = update 7 (whole running_page) (λ id. absent); inflight = 7 ∷ [] }

rebuild-IsCounted_example : IsCounted (rebuild (2 ∷ []) lost)
rebuild-IsCounted_example =
    rebuild-IsCounted (2 ∷ []) lost (refl, tt) (λ id m. ground arith) (λ b m. refl) (λ b p m. refl)

finish_once_example :
    let t = (finish_with (succeed none) 7 600 50 dispatched).0 in
    SameCounters t (finish_with (give_up (codes "late")) 7 600 70 t).0
    × ((finish_with (give_up (codes "late")) 7 600 70 t).1 ≡ none)
finish_once_example = finish_once (succeed none) (give_up (codes "late")) 7 600 600 50 70 dispatched

abbrev entry : QueueEntry
entry = record { job_id = 7; score = 10; priority = 5 }

abbrev waiting : Store
waiting = record claimed { pending = update 5 ((7, 10) ∷ []) (λ p. []); levels = 5 ∷ 0 ∷ [] }

claims_disjoint_example :
    member 7 (claim_pending 21 (entry ∷ []) (claim_pending 20 (entry ∷ []) waiting).0).1 ≡ false
unfolding claim_pending
claims_disjoint_example =
    claims_disjoint (λ id. 5) 20 21 7 (entry ∷ []) (entry ∷ []) waiting (refl, tt) (refl, tt) refl

peek_pending-take_example :
    (peek_pending 1 waiting ≡ take 1 (backlog waiting.pending (pending_levels waiting)))
    × IsDescending (pending_levels waiting)
    × ((p : ℕ) → In p (pending_levels waiting) ↔ In p (or_zero waiting.levels))
peek_pending-take_example = peek_pending-take 1 waiting
