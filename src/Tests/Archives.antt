-- ===== src/Tests/Archives.antt =====
-- The theorems on batches at concrete archives.
use tuzka_as_a_service.Prelude.{◌≡◌, refl, true, none, some, List, [], ◌∷◌, codes, update, text_in}
use tuzka_as_a_service.Redis.State.{running, done, failed}
use tuzka_as_a_service.Batches.{
  PageJob, BatchStatus, queued_batch, finished_batch, Read, member, unreadable, World, Intake,
  NewBatch, submit_batch,
}
use tuzka_as_a_service.Batches.Undo.{IsNew}
use tuzka_as_a_service.Batches.Submit.{AllOrNothing, submit_batch-AllOrNothing}
use tuzka_as_a_service.Batches.Progress.{
  has_active, finish_if_done, end_page, idle, updated, locked, committed, checked, Race, RaceRun,
  no_step, and_step, make_update, take_lock, run_finish, make_commit,
}
use tuzka_as_a_service.Batches.Retry.{latest_pages, retry_batch}
use tuzka_as_a_service.Batches.Counts.{are_over, AddsUp, retry_batch-AddsUp}
use tuzka_as_a_service.Batches.Finish.{IsStart, status_of, RaceRun-status_of}

abbrev intake : Intake
intake = record {
  allowed_extensions = codes ".jpg" ∷ [];
  batch_max_pages = 2;
  lower_suffix = λ name. codes ".jpg";
  image_megapixels = λ bytes. 4;
  new_id = λ i. 7;
  id_text = λ id. codes "7";
  start_fails = λ i. none;
  finish_fails = none;
}

abbrev batch : NewBatch
batch = record { id = 3; username = codes "anna" }

abbrev bucket : World
bucket = record { jobs = []; added = []; batches = λ b. none; incoming = [] }

abbrev archive : List Read
archive = member (codes "a.jpg") (1 ∷ []) ∷ unreadable (codes "truncated") ∷ []

bucket-IsNew : IsNew intake batch bucket
unfolding text_in
bucket-IsNew = record { no_jobs = refl; no_added = refl; no_batch = refl; no_paths = λ i ext. refl }

submit_batch-AllOrNothing_example :
    AllOrNothing intake batch archive bucket (submit_batch intake batch archive bucket)
submit_batch-AllOrNothing_example =
    submit_batch-AllOrNothing intake batch archive bucket bucket-IsNew

abbrev last_page : PageJob
last_page = record {
  id = 7;
  batch_id = some 3;
  source_name = codes "a.jpg";
  status = running;
  megapixels = 4;
}

abbrev before : Race
before = record { jobs = last_page ∷ []; batch = queued_batch; phases = λ id. idle; holder = none }

abbrev updated_race : Race
updated_race = record before { phases = update 7 updated before.phases }

abbrev locked_race : Race
locked_race = record updated_race { phases = update 7 locked updated_race.phases; holder = some 7 }

abbrev found_status : BatchStatus
found_status = finish_if_done 3 (end_page 7 done (last_page ∷ [])) queued_batch

abbrev checked_race : Race
checked_race = record locked_race { phases = update 7 (checked found_status) locked_race.phases }

abbrev after : Race
after = record {
  jobs = end_page 7 done (last_page ∷ []);
  batch = found_status;
  phases = update 7 committed checked_race.phases;
  holder = none;
}

before-IsStart : IsStart 3 before
before-IsStart = record { queued_yet = refl; page_left = refl; all_idle = λ id. refl }

whole_run : RaceRun 3 (λ id. done) before after
whole_run =
    and_step
      (and_step {t = locked_race}
        (and_step {t = updated_race} (and_step no_step (make_update 7 refl))
          (take_lock 7 refl refl))
        (run_finish 7 refl))
      (make_commit 7 found_status refl)

RaceRun-status_of_example : after.batch ≡ status_of (has_active 3 after.jobs)
RaceRun-status_of_example =
    RaceRun-status_of 3 (λ id. done) before after (λ id. refl) before-IsStart whole_run

-- The batch is finished, and its page failed.
abbrev failed_page : PageJob
failed_page = record last_page { status = failed }

abbrev finished : World
finished = record {
  jobs = failed_page ∷ [];
  added = [];
  batches =
      update 3 (some (record { status = finished_batch; total = 1; finished_at = some 90 }))
        (λ b. none);
  incoming = [];
}

page_failed : are_over (latest_pages 3 finished.jobs) ≡ true
unfolding latest_pages
page_failed = refl

retry_batch-AddsUp_example :
    AddsUp 3 (λ i. 8) (λ j. true) finished (retry_batch (λ i. 8) (λ j. true) 3 finished)
retry_batch-AddsUp_example = retry_batch-AddsUp (λ i. 8) (λ j. true) 3 finished page_failed
