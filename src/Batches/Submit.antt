-- ===== src/Batches/Submit.antt =====
-- What a submitted archive leaves behind (app/routers/batches.py).
use mathlib.Core.List.{append-nil, append_assoc}
use tuzka_as_a_service.Prelude.{
  ℕ, ◌+◌, ◌%◌, ◌≤◌, ◌<◌, ◌≡◌, refl, sym, ◌∙◌, ap, Bool, true, false, Option, none, some, List, [],
  ◌∷◌, ◌++◌, Text, arith, leb, ◌==◌, ==_iff, if◌then◌else◌, update, length, length-append,
  Bool-cases, Option-cases, inl, inr, subst,
}
use tuzka_as_a_service.Batches.{
  PageJob, open_batch, queued_batch, BatchRow, UploadedPage, Read, member, member_too_large,
  unreadable, World, Intake, NewBatch, is_page, new_page, page_row, enter_page, commit_every,
  commit_if, store_page, Outcome, stopped, stored, ended, after_finish, store_loop, abandon, Answer,
  refused, accepted, conclude, submit_batch,
}
use tuzka_as_a_service.Batches.Undo.{IsNew, Undoable, store_loop-Undoable, opened-IsUndoable}

pub record IsUnchanged (w v : World) : Type 0 where
  pub same_jobs : v.jobs ≡ w.jobs
  pub same_added : v.added ≡ w.added
  pub same_batches : (x : ℕ) → v.batches x ≡ w.batches x
  pub same_incoming : v.incoming ≡ w.incoming

-- The rows of an archive's pages, numbered on, and the names of its other members.
abbrev pub rows_from : Intake → NewBatch → ℕ → List Read → List PageJob
rows_from e b i [] = []
rows_from e b i (member_too_large text ∷ reads) = rows_from e b i reads
rows_from e b i (unreadable text ∷ reads) = rows_from e b i reads
rows_from e b i (member name bytes ∷ reads) =
    if is_page e name bytes
    then page_row b.id name (new_page e name bytes i) ∷ rows_from e b (i + 1) reads
    else rows_from e b i reads

abbrev pub other_names : Intake → List Read → List Text
other_names e [] = []
other_names e (member_too_large text ∷ reads) = other_names e reads
other_names e (unreadable text ∷ reads) = other_names e reads
other_names e (member name bytes ∷ reads) =
    if is_page e name bytes then other_names e reads else name ∷ other_names e reads

-- The whole archive became the batch: a committed row for each page, in order, and nothing else.
pub record IsTaken (e : Intake) (b : NewBatch) (reads : List Read) (w v : World)
    (pages : List UploadedPage) (skipped : List Text) : Type 0 where
  pub rows_added : v.jobs ≡ w.jobs ++ rows_from e b 0 reads
  pub committed : v.added ≡ []
  pub counted : length pages ≡ length (rows_from e b 0 reads)
  pub some_page : 0 < length pages
  pub not_too_many : length pages ≤ e.batch_max_pages
  pub others_skipped : skipped ≡ other_names e reads
  pub batch_queued :
      v.batches b.id
      ≡ some (record { status = queued_batch; total = length pages; finished_at = none })

module _ (e : Intake) (b : NewBatch) where
  -- What reading the rest of an archive adds, if all of it was read.
  abbrev Added : List Read → ℕ → List Text → World → World × Outcome → Type 0
  Added reads i skipped w (v, stopped refusal pages) = Unit
  Added reads i skipped w (v, stored pages names) =
      (v.jobs ++ v.added ≡ (w.jobs ++ w.added) ++ rows_from e b i reads)
      × (length pages ≡ i + length (rows_from e b i reads))
      × (0 < length pages)
      × (length pages ≤ e.batch_max_pages)
      × (names ≡ skipped ++ other_names e reads)

  commit_if-rows :
      (due : Bool) (w : World)
      → (commit_if due w).jobs ++ (commit_if due w).added ≡ w.jobs ++ w.added
  commit_if-rows false w = refl
  commit_if-rows true w = append-nil (w.jobs ++ w.added)

  store_page-rows :
      (name : Text) (bytes : List ℕ) (i : ℕ) (w : World)
      → (store_page e b name bytes i w).jobs ++ (store_page e b name bytes i w).added
        ≡ (w.jobs ++ w.added) ++ (page_row b.id name (new_page e name bytes i) ∷ [])
  store_page-rows name bytes i w =
      commit_if-rows (((i + 1) % commit_every) == 0) (enter_page e b name bytes i w)
      ∙ sym (append_assoc w.jobs w.added (page_row b.id name (new_page e name bytes i) ∷ []))

  ended-Added :
      (pages : List UploadedPage) (skipped : List Text) (w : World)
      → length pages ≤ e.batch_max_pages
      → Added [] (length pages) skipped w (w, ended e pages skipped)
  ended-Added [] skipped w m = tt
  ended-Added (p ∷ pages) skipped w m = finish e.finish_fails
    where
      finish :
          (error : Option Text)
          → Added [] (length (p ∷ pages)) skipped w (w, after_finish error (p ∷ pages) skipped)
      finish none = (
        sym (append-nil (w.jobs ++ w.added)),
        omega arith,
        omega arith,
        m,
        sym (append-nil skipped),
      )
      finish (some error) = tt

  Added-skip :
      (name : Text) (bytes : List ℕ) (reads : List Read) (i : ℕ) (skipped : List Text) (w : World)
      (r : World × Outcome)
      → is_page e name bytes ≡ false
      → Added reads i (skipped ++ (name ∷ [])) w r
      → Added (member name bytes ∷ reads) i skipped w r
  Added-skip name bytes reads i skipped w (v, stopped refusal pages) n a = tt
  Added-skip name bytes reads i skipped w (v, stored pages names) n
        (rows, count, some_page, few, others) =
      rw n (
        rows,
        count,
        some_page,
        few,
        others ∙ append_assoc skipped (name ∷ []) (other_names e reads),
      )

  Added-take :
      (name : Text) (bytes : List ℕ) (reads : List Read) (i : ℕ) (skipped : List Text) (w : World)
      (r : World × Outcome)
      → is_page e name bytes ≡ true
      → Added reads (i + 1) skipped (store_page e b name bytes i w) r
      → Added (member name bytes ∷ reads) i skipped w r
  Added-take name bytes reads i skipped w (v, stopped refusal pages) n a = tt
  Added-take name bytes reads i skipped w (v, stored pages names) n
        (rows, count, some_page, few, others) =
      let row = page_row b.id name (new_page e name bytes i) in
      rw n (
        rows
            ∙ ap (λ l. l ++ rows_from e b (i + 1) reads) (store_page-rows name bytes i w)
            ∙ append_assoc (w.jobs ++ w.added) (row ∷ []) (rows_from e b (i + 1) reads),
        omega (arith, count),
        some_page,
        few,
        others,
      )

  store_loop-Added :
      (reads : List Read) (pages : List UploadedPage) (skipped : List Text) (w : World)
      → length pages ≤ e.batch_max_pages
      → Added reads (length pages) skipped w (store_loop e b reads pages skipped w)
  unfolding store_loop
  store_loop-Added [] pages skipped w m = ended-Added pages skipped w m
  store_loop-Added (member_too_large text ∷ reads) pages skipped w m = tt
  store_loop-Added (unreadable text ∷ reads) pages skipped w m = tt
  store_loop-Added (member name bytes ∷ reads) pages skipped w m =
      let i = length pages in
      let page = new_page e name bytes i in
      let longer : length (pages ++ (page ∷ [])) ≡ i + 1 =
        omega (arith, length-append pages (page ∷ [])) in
      elim (Bool-cases (is_page e name bytes)) [
        | inr skip ↦
            let rest = store_loop-Added reads pages (skipped ++ (name ∷ [])) w m in
            rw (skip, store_loop)
              (Added-skip name bytes reads i skipped w
                (store_loop e b reads pages (skipped ++ (name ∷ [])) w) skip rest)
        | inl take ↦ elim (Bool-cases (leb e.batch_max_pages i)) [
          | inl full ↦ rw (take, store_loop, full) tt
          | inr room ↦ elim (Option-cases (e.start_fails i)) [
            | inr (error, fails) ↦ rw (take, store_loop, room, fails) tt
            | inl starts ↦
                let v = store_page e b name bytes i w in
                let r = store_loop e b reads (pages ++ (page ∷ [])) skipped v in
                let rest : Added reads (i + 1) skipped v r =
                  subst (λ n. Added reads n skipped v r) longer
                    (store_loop-Added reads (pages ++ (page ∷ [])) skipped v
                      (ground (arith, longer, room))) in
                rw (take, store_loop, room, starts)
                  (Added-take name bytes reads i skipped w r take rest)
          ]
        ]
      ]

-- What a submit leaves for each answer.
abbrev pub AllOrNothing : Intake → NewBatch → List Read → World → World × Answer → Type 0
AllOrNothing e b reads w (v, refused refusal) = IsUnchanged w v
AllOrNothing e b reads w (v, accepted pages skipped) = IsTaken e b reads w v pages skipped

concluded :
    (e : Intake) (b : NewBatch) (reads : List Read) (w : World) (new : IsNew e b w) (v : World)
    (r : World × Outcome)
    → v.jobs ++ v.added ≡ w.jobs
    → Undoable e b w new r
    → Added e b reads 0 [] v r
    → AllOrNothing e b reads w (conclude e b r)
unfolding abandon
concluded e b reads w new v (u, stopped refusal pages) same undo a = record {
  same_jobs = undo.jobs;
  same_added = sym new.no_added;
  same_batches = λ x. elim (Bool-cases (b.id == x)) [
    | inl own ↦ let q : b.id ≡ x = (==_iff b.id x).0 own in rw (own, ← q) (sym new.no_batch)
    | inr other ↦ rw other (undo.batches x other)
  ];
  same_incoming = undo.incoming;
}
concluded e b reads w new v (u, stored pages skipped) same undo
      (rows, count, some_page, few, others) =
    record {
      rows_added = rows ∙ ap (λ l. l ++ rows_from e b 0 reads) same;
      committed = refl;
      counted = omega (arith, count);
      some_page = some_page;
      not_too_many = few;
      others_skipped = others;
      batch_queued = rw ((==_iff b.id b.id).1 refl) refl;
    }

-- A new batch is submitted as a whole or not at all, wherever reading its archive, an upload or a limit
-- stops it. If it is refused, the rows of jobs and batches and the objects in the incoming bucket are
-- as before. If it is accepted, every image of the archive has its committed row, in order, there is
-- at least one and at most the limit, all other members are listed as skipped, and the batch is
-- queued with that many pages.
pub submit_batch-AllOrNothing :
    (e : Intake) (b : NewBatch) (reads : List Read) (w : World)
    → IsNew e b w
    → AllOrNothing e b reads w (submit_batch e b reads w)
unfolding submit_batch
submit_batch-AllOrNothing e b reads w new =
    let row : BatchRow = record { status = open_batch; total = 0; finished_at = none } in
    let opened : World = record w { batches = update b.id (some row) w.batches } in
    concluded e b reads w new opened (store_loop e b reads [] [] opened)
      (rw new.no_added (append-nil w.jobs))
      (store_loop-Undoable e b w new reads [] [] opened (opened-IsUndoable e b w new row))
      (store_loop-Added e b reads [] [] opened (omega arith))
