-- ===== src/Batches/Undo.antt =====
-- Undoing a batch whose archive was refused (app/routers/batches.py).
use mathlib.Core.List.{append-nil}
use tuzka_as_a_service.Prelude.{
  keep-append, ℕ, ◌+◌, ◌%◌, ◌≡◌, refl, sym, ◌∙◌, ap, Bool, true, false, ◌||◌, not, Option, none,
  some, List, [], ◌∷◌, ◌++◌, Text, arith, leb, ◌==◌, ==_iff, update, keep, length, text_in, text_eq,
  text_eq_iff, Bool-cases, Option-cases, inl, inr,
}
use tuzka_as_a_service.Batches.{
  BatchRow, UploadedPage, Read, member, member_too_large, unreadable, World, Intake, NewBatch,
  incoming_path, is_page, new_page, page_row, enter_page, commit_every, commit_if, store_page,
  Outcome, stopped, stored, ended, after_finish, store_loop, paths_of, is_of,
}

-- The batch is new: no row has its id, no transaction is open, and the bucket has no object under a
-- path of a page of it.
pub record IsNew (e : Intake) (b : NewBatch) (w : World) : Type 0 where
  pub no_jobs : keep (λ j. not (is_of b.id j)) w.jobs ≡ w.jobs
  pub no_added : w.added ≡ []
  pub no_batch : w.batches b.id ≡ none
  pub no_paths :
      (i : ℕ) (ext : Text)
      → text_in (incoming_path e b.username (e.new_id i) ext) w.incoming ≡ false

module _ (e : Intake) (b : NewBatch) (w0 : World) (new : IsNew e b w0) where
  -- What undoing the pages so far has to find.
  pub record IsUndoable (pages : List UploadedPage) (w : World) : Type 0 where
    pub jobs : keep (λ j. not (is_of b.id j)) w.jobs ≡ w0.jobs
    pub added : keep (λ j. not (is_of b.id j)) w.added ≡ []
    pub batches : (x : ℕ) → (b.id == x) ≡ false → w.batches x ≡ w0.batches x
    pub incoming :
        keep (λ path. not (text_in path (paths_of e b.username pages))) w.incoming ≡ w0.incoming

  commit_if-IsUndoable :
      (due : Bool) (pages : List UploadedPage) (w : World)
      → IsUndoable pages w
      → IsUndoable pages (commit_if due w)
  commit_if-IsUndoable false pages w h = h
  commit_if-IsUndoable true pages w h = record {
    jobs =
        keep-append (λ j. not (is_of b.id j)) w.jobs w.added
        ∙ rw (h.jobs, h.added) (append-nil w0.jobs);
    added = refl;
    batches = h.batches;
    incoming = h.incoming;
  }

  text_in-paths :
      (path : Text) (pages : List UploadedPage) (p : UploadedPage)
      → text_in path (paths_of e b.username (pages ++ (p ∷ []))) ≡ (
          text_in path (paths_of e b.username pages)
          || text_eq (incoming_path e b.username p.job_id p.ext) path)
  unfolding text_in
  text_in-paths path [] p = ground arith
  text_in-paths path (q ∷ pages) p = ground (arith, text_in-paths path pages p)

  text_eq_apart : (s t : Text) → text_eq s t ≡ false → text_eq t s ≡ false
  text_eq_apart s t h = elim (Bool-cases (text_eq t s)) [
    | inl e ↦ let q : s ≡ t = sym ((text_eq_iff t s).0 e) in absurd (cc (h, (text_eq_iff s t).1 q))
    | inr e ↦ e
  ]

  -- Leaving out one path more than is there changes nothing.
  keep_one_more :
      (pages : List UploadedPage) (p : UploadedPage) (paths : List Text)
      → text_in
          (incoming_path e b.username p.job_id p.ext)
          (keep (λ path. not (text_in path (paths_of e b.username pages))) paths)
        ≡ false
      → keep (λ path. not (text_in path (paths_of e b.username (pages ++ (p ∷ []))))) paths
        ≡ keep (λ path. not (text_in path (paths_of e b.username pages))) paths
  unfolding text_in
  keep_one_more pages p [] n = refl
  keep_one_more pages p (x ∷ paths) n =
      let split = text_in-paths x pages p in
      let apart = text_eq_apart x (incoming_path e b.username p.job_id p.ext) in
      let rest = keep_one_more pages p paths in
      elim (Bool-cases (text_in x (paths_of e b.username pages))) [
        | inl known ↦ ground (arith, split, known, rest)
        | inr other ↦ ground (arith, split, other, rest, apart, n)
      ]

  store_page-IsUndoable :
      (name : Text) (bytes : List ℕ) (pages : List UploadedPage) (w : World)
      → IsUndoable pages w
      → IsUndoable
          (pages ++ (new_page e name bytes (length pages) ∷ []))
          (store_page e b name bytes (length pages) w)
  unfolding text_in
  store_page-IsUndoable name bytes pages w h =
      let p = new_page e name bytes (length pages) in
      let fresh : text_in (incoming_path e b.username p.job_id p.ext)
            (keep (λ path. not (text_in path (paths_of e b.username pages))) w.incoming)
          ≡ false =
        rw h.incoming (new.no_paths (length pages) p.ext) in
      let same = keep_one_more pages p w.incoming fresh in
      let path = incoming_path e b.username p.job_id p.ext in
      let own : text_in path (paths_of e b.username (pages ++ (p ∷ []))) ≡ true =
        ground (arith, text_in-paths path pages p, (text_eq_iff path path).1 refl) in
      commit_if-IsUndoable (((length pages + 1) % commit_every) == 0) (pages ++ (p ∷ []))
        (enter_page e b name bytes (length pages) w)
        (record {
          jobs = h.jobs;
          added =
              keep-append (λ j. not (is_of b.id j)) w.added (page_row b.id name p ∷ [])
              ∙ ground (arith, h.added, (==_iff b.id b.id).1 refl);
          batches = h.batches;
          incoming = rw own (same ∙ h.incoming);
        })

  abbrev pub Undoable : World × Outcome → Type 0
  Undoable (w, stopped refusal pages) = IsUndoable pages w
  Undoable (w, stored pages skipped) = Unit

  ended-Undoable :
      (pages : List UploadedPage) (skipped : List Text) (w : World)
      → IsUndoable pages w
      → Undoable (w, ended e pages skipped)
  ended-Undoable [] skipped w h = h
  ended-Undoable (p ∷ pages) skipped w h = finish e.finish_fails
    where
      finish : (error : Option Text) → Undoable (w, after_finish error (p ∷ pages) skipped)
      finish none = tt
      finish (some error) = h

  pub store_loop-Undoable :
      (reads : List Read) (pages : List UploadedPage) (skipped : List Text) (w : World)
      → IsUndoable pages w
      → Undoable (store_loop e b reads pages skipped w)
  unfolding store_loop
  store_loop-Undoable [] pages skipped w h = ended-Undoable pages skipped w h
  store_loop-Undoable (member_too_large text ∷ reads) pages skipped w h = h
  store_loop-Undoable (unreadable text ∷ reads) pages skipped w h = h
  store_loop-Undoable (member name bytes ∷ reads) pages skipped w h =
      let i = length pages in
      let next = store_page-IsUndoable name bytes pages w h in
      elim (Bool-cases (is_page e name bytes)) [
        | inr skip ↦ rw skip (store_loop-Undoable reads pages (skipped ++ (name ∷ [])) w h)
        | inl page ↦ rw page (elim (Bool-cases (leb e.batch_max_pages i)) [
          | inl full ↦ rw full h
          | inr room ↦ rw room (elim (Option-cases (e.start_fails i)) [
            | inr (error, fails) ↦ rw fails h
            | inl starts ↦ rw starts (
                store_loop-Undoable reads (pages ++ (new_page e name bytes i ∷ [])) skipped
                  (store_page e b name bytes i w) next)
          ])
        ])
      ]

keep_all : (paths : List Text) → keep (λ path. not (text_in path [])) paths ≡ paths
unfolding text_in
keep_all [] = refl
keep_all (x ∷ paths) = ap (λ l. x ∷ l) (keep_all paths)

pub opened-IsUndoable :
    (e : Intake) (b : NewBatch) (w : World) (new : IsNew e b w) (row : BatchRow)
    → IsUndoable e b w new [] (record w { batches = update b.id (some row) w.batches })
opened-IsUndoable e b w new row = record {
  jobs = new.no_jobs;
  added = rw new.no_added refl;
  batches = λ x h. rw h refl;
  incoming = keep_all w.incoming;
}
