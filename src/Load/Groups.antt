-- ===== src/Load/Groups.antt =====
-- The groups of `group_load` by domain against `compute_load` (app/services/load.py).
use tuzka_as_a_service.Prelude.{
  ℕ, suc, ◌+◌, ◌≡◌, refl, ap, ◌∙◌, Text, List, [], ◌∷◌, true, Option, none, some, arith,
  if◌then◌else◌, map, keep, Bool-cases, inl, inr, text_in, text_eq, text_eq_iff, sort_texts,
  insert_text, leb, All,
}
use tuzka_as_a_service.Prelude.Int.{ℤ}
use tuzka_as_a_service.Load.Totals.{
  Dict, LoadRow, LoadTotals, by_domain, no_load, add_row, load_loop, compute_load, group_load,
  counts, distinct, domains_of, matches,
}

abbrev add_totals : LoadTotals → LoadTotals → LoadTotals
add_totals a b = record {
  queued = a.queued + b.queued;
  inflight = a.inflight + b.inflight;
  backlog_s = a.backlog_s + b.backlog_s;
}

abbrev pub sum_loads : Dict LoadTotals → LoadTotals
sum_loads [] = no_load
sum_loads ((name, t) ∷ d) = add_totals t (sum_loads d)

-- How often a name stands in a list.
count : Text → List Text → ℕ
count t [] = 0
count t (u ∷ us) = let rest = count t us in if text_eq u t then suc rest else rest

module _ (spp : Dict ℕ) (default_spp : ℕ) where
  load_of : LoadRow → LoadTotals
  load_of c = add_row spp default_spp c no_load

  load_of_lem :
      (c : LoadRow) (t : LoadTotals) → add_row spp default_spp c t ≡ add_totals t (load_of c)
  unfolding load_of
  load_of_lem c t = ground arith

  of_name : Text → List LoadRow → LoadTotals
  unfolding load_loop
  of_name name rows = load_loop spp default_spp (some (name ∷ [])) none rows no_load

  loop_lem :
      (domains : Option (List Text)) (rows : List LoadRow) (t : LoadTotals)
      → load_loop spp default_spp domains none rows t
        ≡ add_totals t (load_loop spp default_spp domains none rows no_load)
  unfolding load_loop
  loop_lem domains [] t = ground arith
  loop_lem domains (c ∷ rows) t = elim (Bool-cases (matches c.domain c.outputs domains none)) [
    | inl e ↦ rw e (
        ground (
          arith,
          load_of_lem c t,
          load_of_lem c no_load,
          loop_lem domains rows (add_row spp default_spp c t),
          loop_lem domains rows (add_row spp default_spp c no_load),
        ))
    | inr e ↦ rw e (ground (arith, loop_lem domains rows t))
  ]

  of_name-cons :
      (name : Text) (c : LoadRow) (rows : List LoadRow)
      → of_name name (c ∷ rows) ≡ (
          if text_eq name c.domain
          then add_totals (load_of c) (of_name name rows)
          else of_name name rows)
  unfolding of_name text_in matches
  of_name-cons name c rows = elim (Bool-cases (text_eq name c.domain)) [
    | inl e ↦ rw e (
        ground (
          arith,
          load_of_lem c no_load,
          loop_lem (some (name ∷ [])) rows (add_row spp default_spp c no_load),
        ))
    | inr e ↦ rw e refl
  ]

  named : List LoadRow → List Text → Dict LoadTotals
  named rows = map (λ name. (name, of_name name rows))

  skip_row :
      (c : LoadRow) (rows : List LoadRow) (names : List Text)
      → count c.domain names ≡ 0
      → sum_loads (named (c ∷ rows) names) ≡ sum_loads (named rows names)
  unfolding named count
  skip_row c rows [] h = refl
  skip_row c rows (n ∷ names) h = ground (arith, skip_row c rows names, of_name-cons n c rows)

  take_row :
      (c : LoadRow) (rows : List LoadRow) (names : List Text)
      → count c.domain names ≡ 1
      → sum_loads (named (c ∷ rows) names) ≡ add_totals (load_of c) (sum_loads (named rows names))
  unfolding named count
  take_row c rows [] h = ground arith
  take_row c rows (n ∷ names) h =
      ground (arith, take_row c rows names, skip_row c rows names, of_name-cons n c rows)

count-insert_text : (t u : Text) (us : List Text) → count t (insert_text u us) ≡ count t (u ∷ us)
unfolding count insert_text
count-insert_text t u [] = refl
count-insert_text t u (v ∷ us) = ground (arith, count-insert_text t u us)

count-sort_texts : (t : Text) (us : List Text) → count t (sort_texts us) ≡ count t us
unfolding sort_texts count
count-sort_texts t [] = refl
count-sort_texts t (u ∷ us) =
    ground (arith, count-insert_text t u (sort_texts us), count-sort_texts t us)

count_member : (t : Text) (us : List Text) → text_in t us ≡ leb 1 (count t us)
unfolding count text_in
count_member t [] = refl
count_member t (u ∷ us) = ground (arith, count_member t us)

-- A member stands once in `distinct`.
count-distinct :
    (t : Text) (us : List Text) → count t (distinct us) ≡ (if text_in t us then 1 else 0)
unfolding count distinct text_in
count-distinct t [] = refl
count-distinct t (u ∷ us) =
    let m = count_member t (distinct us) in
    let rest = count-distinct t us in
    elim (Bool-cases (text_eq u t)) [
      | inl e ↦
          let q : u ≡ t = (text_eq_iff u t).0 e in
          let self : text_eq t t ≡ true = (text_eq_iff t t).1 refl in
          rw q (elim (Bool-cases (text_in t (distinct us))) [
            | inl d ↦ rw d (ground arith)
            | inr d ↦ rw d (ground arith)
          ])
      | inr e ↦ ground arith
    ]

module _ (spp : Dict ℕ) (default_spp : ℕ) where
  no_rows : (names : List Text) → sum_loads (named spp default_spp [] names) ≡ no_load
  unfolding named of_name
  no_rows [] = refl
  no_rows (n ∷ names) = ground (arith, no_rows names)

  shared_out :
      (rows : List LoadRow) (names : List Text)
      → All (λ c. count c.domain names ≡ 1) rows
      → sum_loads (named spp default_spp rows names)
        ≡ load_loop spp default_spp none none rows no_load
  unfolding load_loop matches
  shared_out [] names h = no_rows names
  shared_out (c ∷ rows) names (h, hs) = ground (
    arith,
    take_row spp default_spp c rows names h,
    shared_out rows names hs,
    load_of_lem spp default_spp c no_load,
    loop_lem spp default_spp none rows (add_row spp default_spp c no_load),
  )

head_in : (t : Text) (us : List Text) → text_in t (t ∷ us) ≡ true
unfolding text_in
head_in t us = ground (arith, text_eq_iff t t)

tail_in : (u t : Text) (us : List Text) → text_in t us ≡ true → text_in t (u ∷ us) ≡ true
unfolding text_in
tail_in u t us h = ground arith

each_once :
    (rows : List LoadRow) (ds : List Text)
    → ((t : Text) → text_in t (domains_of rows) ≡ true → text_in t ds ≡ true)
    → All (λ c. count c.domain (sort_texts (distinct ds)) ≡ 1) rows
each_once [] ds f = tt
each_once (c ∷ rows) ds f = (
  count-sort_texts c.domain (distinct ds)
      ∙ count-distinct c.domain ds
      ∙ rw (f c.domain (head_in c.domain (domains_of rows))) refl,
  each_once rows ds (λ t h. f t (tail_in c.domain t (domains_of rows) h)),
)

keep_all : {A : Type 0} (xs : List A) → keep (λ x. true) xs ≡ xs
keep_all [] = refl
keep_all (x ∷ xs) = ap (λ l. x ∷ l) (keep_all xs)

-- Grouped by domain and with no filter, the groups' loads add up to the whole load: its queued
-- jobs, its in-flight jobs and its backlog.
pub group_load-sum :
    (queued inflight : Dict ℤ) (spp : Dict ℕ) (default_spp : ℕ) (caps : Dict (Dict (List Text)))
    → sum_loads (group_load queued inflight spp default_spp by_domain caps none)
      ≡ compute_load queued inflight spp default_spp none none
unfolding group_load compute_load named of_name
group_load-sum queued inflight spp default_spp caps =
    let rows = counts queued inflight in
    let names = sort_texts (distinct (domains_of rows)) in
    rw (keep_all names)
      (shared_out spp default_spp rows names (each_once rows (domains_of rows) (λ t h. h)))
