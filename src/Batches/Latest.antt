-- ===== src/Batches/Latest.antt =====
-- The current jobs of a batch's pages, and the rows that a retry adds (app/services/batch_store.py,
-- app/routers/batches.py).
use tuzka_as_a_service.Prelude.{
  any-append, ℕ, ◌+◌, ◌≡◌, refl, sym, ◌∙◌, ap, Bool, true, false, ◌&&◌, not, List, [], ◌∷◌, ◌++◌,
  arith, ==_iff, keep, all, length, text_eq, text_eq_iff, Bool-cases, inl, inr, subst,
}
use tuzka_as_a_service.Redis.State.{JobStatus, queued}
use tuzka_as_a_service.Batches.{PageJob, is_of}
use tuzka_as_a_service.Batches.Retry.{is_retried, latest_pages, goes_again, retry_row, retry_rows}

module _ (b : ℕ) where
  latest_pages-append :
      (xs ys : List PageJob)
      → latest_pages b (xs ++ ys)
        ≡ keep (λ j. not (is_retried b j ys)) (latest_pages b xs) ++ latest_pages b ys
  unfolding latest_pages
  latest_pages-append [] ys = refl
  latest_pages-append (x ∷ xs) ys = ground (
    arith,
    latest_pages-append xs ys,
    any-append (λ (k : PageJob). is_of b k && text_eq k.source_name x.source_name) xs ys,
  )

  -- Each page is the batch's, and no later one has its name.
  abbrev pub AreDistinct : List PageJob → Type 0
  AreDistinct [] = Unit
  AreDistinct (j ∷ pages) = (is_of b j ≡ true) × (is_retried b j pages ≡ false) × AreDistinct pages

  is_retried-latest_pages :
      (j : PageJob) (rows : List PageJob)
      → is_retried b j rows ≡ false
      → is_retried b j (latest_pages b rows) ≡ false
  unfolding latest_pages
  is_retried-latest_pages j [] h = refl
  is_retried-latest_pages j (k ∷ rows) h = ground (arith, is_retried-latest_pages j rows, h)

  pub latest_pages-AreDistinct : (rows : List PageJob) → AreDistinct (latest_pages b rows)
  unfolding latest_pages
  latest_pages-AreDistinct [] = tt
  latest_pages-AreDistinct (j ∷ rows) = elim (Bool-cases (is_of b j && not (is_retried b j rows))) [
    | inl e ↦ rw e (
      ground (arith, e),
      is_retried-latest_pages j rows (ground (arith, e)),
      latest_pages-AreDistinct rows,
    )
    | inr e ↦ rw e (latest_pages-AreDistinct rows)
  ]

  module _ (new_id : ℕ → ℕ) (copied : PageJob → Bool) where
    own : (i : ℕ) (j : PageJob) → is_of b (retry_row b new_id i j) ≡ true
    own i j = (==_iff b b).1 refl

    -- A name that no page has is not retried.
    is_retried-retry_rows :
        (k : PageJob) (i : ℕ) (pages : List PageJob)
        → AreDistinct pages
        → is_retried b k pages ≡ false
        → is_retried b k (retry_rows b new_id copied i pages) ≡ false
    is_retried-retry_rows k i [] d h = refl
    is_retried-retry_rows k i (j ∷ pages) d h =
        let here = is_retried-retry_rows k (i + 1) pages d.2 (ground (arith, h)) in
        let there = is_retried-retry_rows k i pages d.2 (ground (arith, h)) in
        elim (Bool-cases (goes_again copied j)) [
          | inl e ↦ rw e (ground (arith, here, h, d.0, own i j))
          | inr e ↦ rw e there
        ]

    -- The new jobs are of different pages, so each is the latest of its page.
    latest_pages-retry_rows :
        (i : ℕ) (pages : List PageJob)
        → AreDistinct pages
        → latest_pages b (retry_rows b new_id copied i pages) ≡ retry_rows b new_id copied i pages
    unfolding latest_pages
    latest_pages-retry_rows i [] d = refl
    latest_pages-retry_rows i (j ∷ pages) d = elim (Bool-cases (goes_again copied j)) [
      | inl e ↦
          let alone = is_retried-retry_rows j (i + 1) pages d.2 d.1 in
          let rest = latest_pages-retry_rows (i + 1) pages d.2 in
          rw (e, own i j, alone) (ap (λ l. retry_row b new_id i j ∷ l) rest)
      | inr e ↦ rw e (latest_pages-retry_rows i pages d.2)
    ]

    -- A new job of one page leaves the other pages as they are.
    keep_others :
        (row : PageJob) (rows pages : List PageJob)
        → is_of b row ≡ true
        → all (λ k. not (text_eq row.source_name k.source_name)) pages ≡ true
        → keep (λ k. not (is_retried b k (row ∷ rows))) pages
          ≡ keep (λ k. not (is_retried b k rows)) pages
    keep_others row rows [] o h = refl
    keep_others row rows (k ∷ pages) o h = ground (arith, keep_others row rows pages, o, h)

    others_named :
        (j : PageJob) (pages : List PageJob)
        → AreDistinct pages
        → is_retried b j pages ≡ false
        → all (λ k. not (text_eq j.source_name k.source_name)) pages ≡ true
    others_named j [] d h = refl
    others_named j (k ∷ pages) d h = elim (Bool-cases (text_eq j.source_name k.source_name)) [
      | inl e ↦
          let same : j.source_name ≡ k.source_name =
            (text_eq_iff j.source_name k.source_name).0 e in
          absurd (ground (arith, h, d.0, (text_eq_iff k.source_name j.source_name).1 (sym same)))
      | inr e ↦ ground (arith, e, others_named j pages d.2, h)
    ]

    abbrev Kept : List PageJob → List PageJob → Type 0
    Kept pages rows =
        keep (λ k. not (is_retried b k rows)) pages ≡ keep (λ k. not (goes_again copied k)) pages

    keep-retry_rows :
        (i : ℕ) (pages : List PageJob)
        → AreDistinct pages
        → keep (λ k. not (is_retried b k (retry_rows b new_id copied i pages))) pages
          ≡ keep (λ k. not (goes_again copied k)) pages
    keep-retry_rows i [] d = refl
    keep-retry_rows i (j ∷ pages) d = elim (Bool-cases (goes_again copied j)) [
      | inl e ↦
          let others =
            keep_others (retry_row b new_id i j) (retry_rows b new_id copied (i + 1) pages) pages
              (own i j) (others_named j pages d.2 d.1) in
          let same = (text_eq_iff j.source_name j.source_name).1 refl in
          let step : retry_rows b new_id copied i (j ∷ pages)
              ≡ retry_row b new_id i j ∷ retry_rows b new_id copied (i + 1) pages =
            rw e refl in
          subst (Kept (j ∷ pages)) (sym step)
            (rw (e, own i j, same) (others ∙ keep-retry_rows (i + 1) pages d.2))
      | inr e ↦
          let alone = is_retried-retry_rows j i pages d.2 d.1 in
          let step : retry_rows b new_id copied i (j ∷ pages) ≡ retry_rows b new_id copied i pages =
            rw e refl in
          subst (Kept (j ∷ pages)) (sym step)
            (rw (e, alone) (ap (λ l. j ∷ l) (keep-retry_rows i pages d.2)))
    ]

    pub length_split :
        (i : ℕ) (pages : List PageJob)
        → length (keep (λ k. not (goes_again copied k)) pages)
            + length (retry_rows b new_id copied i pages)
          ≡ length pages
    length_split i [] = omega arith
    length_split i (j ∷ pages) = elim (Bool-cases (goes_again copied j)) [
      | inl e ↦ rw e (omega (arith, length_split (i + 1) pages))
      | inr e ↦ rw e (omega (arith, length_split i pages))
    ]

    -- The batch's pages once the rows of a retry are added to its rows.
    pub latest_after_retry :
        (rows : List PageJob)
        → latest_pages b (rows ++ retry_rows b new_id copied 0 (latest_pages b rows))
          ≡ keep (λ k. not (goes_again copied k)) (latest_pages b rows)
            ++ retry_rows b new_id copied 0 (latest_pages b rows)
    latest_after_retry rows =
        let pages = latest_pages b rows in
        let d = latest_pages-AreDistinct rows in
        latest_pages-append rows (retry_rows b new_id copied 0 pages)
        ∙ rw (keep-retry_rows 0 pages d, latest_pages-retry_rows 0 pages d) refl

    pub none_ended :
        (p : JobStatus → Bool) (i : ℕ) (pages : List PageJob)
        → p queued ≡ false
        → keep (λ (j : PageJob). p j.status) (retry_rows b new_id copied i pages) ≡ []
    none_ended p i [] h = refl
    none_ended p i (j ∷ pages) h = elim (Bool-cases (goes_again copied j)) [
      | inl e ↦ rw (e, h) (none_ended p (i + 1) pages h)
      | inr e ↦ rw e (none_ended p i pages h)
    ]
