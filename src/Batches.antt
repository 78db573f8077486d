-- ===== src/Batches.antt =====
-- Submitting a batch: `submit_batch`, `_store_pages`, `_store_page`, `_abandon` and `_enqueue_pages` of
-- app/routers/batches.py with the rules of app/services/batches.py, and the finishing of batches of
-- app/services/batch_store.py. What the archive's reader yields, which uploads fail, new ids, file name
-- suffixes and image sizes are arguments.
pub mod Undo
pub mod Submit
pub mod Progress
pub mod Finish
pub mod Retry
pub mod Latest
pub mod Counts
use tuzka_as_a_service.Prelude.{
  ℕ, suc, ◌+◌, ◌%◌, Bool, true, false, ◌&&◌, ◌||◌, not, Option, none, some, List, [], ◌∷◌, ◌++◌,
  Text, codes, leb, ◌==◌, if◌then◌else◌, update, map, keep, any, length, text_in, holds_id,
  is_blank,
}
use tuzka_as_a_service.Redis.State.{
  JobState, JobStatus, queued, running, storing, done, failed, BatchCounts, Store,
}
use tuzka_as_a_service.Redis.Queue.{enqueue_jobs}

-- A row of `jobs` as a page of a batch, in the columns that a batch reads.
pub record PageJob : Type 0 where
  pub id : ℕ
  pub batch_id : Option ℕ
  pub source_name : Text
  pub status : JobStatus
  pub megapixels : ℕ

pub data BatchStatus : Type 0 where
  open_batch queued_batch finished_batch : BatchStatus

pub record BatchRow : Type 0 where
  pub status : BatchStatus
  pub total : ℕ
  pub finished_at : Option ℕ

pub record UploadedPage : Type 0 where
  pub job_id : ℕ
  pub ext : Text
  pub megapixels : ℕ

-- One step of the archive's reader: a member with its bytes, or the error that it raises.
pub data Read : Type 0 where
  member : Text → List ℕ → Read
  member_too_large : Text → Read
  unreadable : Text → Read

pub data Refusal : Type 0 where
  too_many_pages : ℕ → Refusal
  page_too_large : Text → Refusal
  no_images : Refusal
  broken : Text → Refusal

-- The database and the incoming bucket: `jobs` holds the committed rows, `added` those of the open
-- transaction, `incoming` the paths of the objects.
pub record World : Type 0 where
  pub jobs : List PageJob
  pub added : List PageJob
  pub batches : ℕ → Option BatchRow
  pub incoming : List Text

-- The settings and the surroundings of a submit. `start_fails` is the error that starting the upload
-- of a page raises, `finish_fails` that of waiting for all of them.
pub record Intake : Type 0 where
  pub allowed_extensions : List Text
  pub batch_max_pages : ℕ
  pub lower_suffix : Text → Text
  pub image_megapixels : List ℕ → ℕ
  pub new_id : ℕ → ℕ
  pub id_text : ℕ → Text
  pub start_fails : ℕ → Option Text
  pub finish_fails : Option Text

pub record NewBatch : Type 0 where
  pub id : ℕ
  pub username : Text

-- `UploadedPage.incoming_path`.
abbrev pub incoming_path : Intake → Text → ℕ → Text → Text
incoming_path e username job_id ext = username ++ codes "/" ++ e.id_text job_id ++ ext

-- `plan_batch_member` says "take".
abbrev pub takes_member : Intake → Text → Bool
takes_member e name = text_in (e.lower_suffix name) e.allowed_extensions

-- Whether `_store_pages` makes a page of a member.
abbrev pub is_page : Intake → Text → List ℕ → Bool
is_page e name bytes = not (is_blank bytes) && takes_member e name

abbrev pub new_page : Intake → Text → List ℕ → ℕ → UploadedPage
new_page e name bytes i = record {
  job_id = e.new_id i;
  ext = e.lower_suffix name;
  megapixels = e.image_megapixels bytes;
}

abbrev pub page_row : ℕ → Text → UploadedPage → PageJob
page_row batch_id name page = record {
  id = page.job_id;
  batch_id = some batch_id;
  source_name = name;
  status = queued;
  megapixels = page.megapixels;
}

abbrev pub commit : World → World
commit w = record w { jobs = w.jobs ++ w.added; added = [] }

abbrev pub commit_every : ℕ
commit_every = 100

abbrev pub commit_if : Bool → World → World
commit_if due w = if due then commit w else w

-- `_store_page`.
abbrev pub enter_page : Intake → NewBatch → Text → List ℕ → ℕ → World → World
enter_page e b name bytes i w =
    let page = new_page e name bytes i in
    record w {
      incoming = incoming_path e b.username page.job_id page.ext ∷ w.incoming;
      added = w.added ++ (page_row b.id name page ∷ []);
    }

-- `_store_page` and the commit after every hundredth page.
abbrev pub store_page : Intake → NewBatch → Text → List ℕ → ℕ → World → World
store_page e b name bytes i w =
    commit_if (((i + 1) % commit_every) == 0) (enter_page e b name bytes i w)

-- How the reading of an archive ended; a refusal names the pages stored before it.
pub data Outcome : Type 0 where
  stopped : Refusal → List UploadedPage → Outcome
  stored : List UploadedPage → List Text → Outcome

abbrev after_finish : Option Text → List UploadedPage → List Text → Outcome
after_finish none pages skipped = stored pages skipped
after_finish (some error) pages skipped = stopped (broken error) pages

abbrev ended : Intake → List UploadedPage → List Text → Outcome
ended e [] skipped = stopped no_images []
ended e (p ∷ pages) skipped = after_finish e.finish_fails (p ∷ pages) skipped

-- The body of `_store_pages` over the rest of the archive.
unfoldable pub store_loop :
    Intake → NewBatch → List Read → List UploadedPage → List Text → World → World × Outcome
store_loop e b [] pages skipped w = (w, ended e pages skipped)
store_loop e b (member_too_large text ∷ reads) pages skipped w =
    (w, stopped (page_too_large text) pages)
store_loop e b (unreadable text ∷ reads) pages skipped w = (w, stopped (broken text) pages)
store_loop e b (member name bytes ∷ reads) pages skipped w =
    let i = length pages in
    let skip = store_loop e b reads pages (skipped ++ (name ∷ [])) w in
    let take =
      store_loop e b reads (pages ++ (new_page e name bytes i ∷ [])) skipped
        (store_page e b name bytes i w) in
    if is_page e name bytes
    then (if leb e.batch_max_pages i
        then (w, stopped (too_many_pages e.batch_max_pages) pages)
        else (elim (e.start_fails i) [
          | some error ↦ (w, stopped (broken error) pages)
          | none ↦ take
        ]))
    else skip

abbrev pub paths_of : Intake → Text → List UploadedPage → List Text
paths_of e username [] = []
paths_of e username (p ∷ pages) =
    incoming_path e username p.job_id p.ext ∷ paths_of e username pages

-- DELETE of a batch, whose jobs go with it.
abbrev pub is_of : ℕ → PageJob → Bool
is_of batch_id job = holds_id job.batch_id batch_id

-- `_abandon`.
unfoldable pub abandon : Intake → NewBatch → List UploadedPage → World → World
unfolding text_in
abandon e b pages w = record w {
  jobs = keep (λ j. not (is_of b.id j)) w.jobs;
  added = [];
  batches = update b.id none w.batches;
  incoming = keep (λ path. not (text_in path (paths_of e b.username pages))) w.incoming;
}

-- What a submit answers.
pub data Answer : Type 0 where
  refused : Refusal → Answer
  accepted : List UploadedPage → List Text → Answer

abbrev queue_batch : ℕ → ℕ → World → World
queue_batch batch_id total w = commit (record w {
  batches =
      update batch_id (some (record { status = queued_batch; total = total; finished_at = none }))
        w.batches;
})

abbrev conclude : Intake → NewBatch → World × Outcome → World × Answer
conclude e b (w, stopped refusal pages) = (abandon e b pages w, refused refusal)
conclude e b (w, stored pages skipped) = (queue_batch b.id (length pages) w, accepted pages skipped)

-- `submit_batch` from the new batch's row on: what it leaves in the database and the bucket.
unfoldable pub submit_batch : Intake → NewBatch → List Read → World → World × Answer
unfolding store_loop abandon
submit_batch e b reads w =
    let opened = record w {
      batches =
          update b.id (some (record { status = open_batch; total = 0; finished_at = none }))
            w.batches;
    } in
    conclude e b (store_loop e b reads [] [] opened)
