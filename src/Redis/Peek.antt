-- ===== src/Redis/Peek.antt =====
-- The order in which `peek_pending` of app/services/redis_jobs.py shows jobs to the dispatcher.
use mathlib.Core.List.{append-nil, append_assoc}
use mathlib.Core.Path.{ap₂}
use tuzka_as_a_service.Prelude.{
  ℕ, zero, suc, ◌-◌, ◌≤◌, ◌≡◌, refl, sym, ◌∙◌, ap, List, [], ◌∷◌, ◌++◌, arith, leb, take, length,
  take-append, length-append, length-take, Bool-cases, inl, inr, ltb, All, In, ◌↔◌,
}
use tuzka_as_a_service.Redis.ZSet.{ZSet}
use tuzka_as_a_service.Redis.State.{Store}
use tuzka_as_a_service.Redis.Queue.{
  QueueEntry, entries_of, peek_loop, pending_levels, peek_pending, or_zero, place_down, sort_down,
}

-- Everything pending: the levels' queues one after another.
abbrev pub backlog : (ℕ → ZSet) → List ℕ → List QueueEntry
backlog pending [] = []
backlog pending (p ∷ levels) = entries_of p (pending p) ++ backlog pending levels

take-entries_of : (n p : ℕ) (z : ZSet) → entries_of p (take n z) ≡ take n (entries_of p z)
take-entries_of zero p z = refl
take-entries_of (suc n) p [] = refl
take-entries_of (suc n) p ((id, score) ∷ z) =
    ap (λ l. record { job_id = id; score = score; priority = p } ∷ l) (take-entries_of n p z)

take_all : (n : ℕ) (xs : List QueueEntry) → length xs ≤ n → take n xs ≡ xs
take_all zero [] h = refl
take_all (suc n) [] h = refl
take_all zero (x ∷ xs) h = absurd (omega arith)
take_all (suc n) (x ∷ xs) h = ap (λ l. x ∷ l) (take_all n xs (omega arith))

take-nil : (n : ℕ) → take {A = QueueEntry} n [] ≡ []
take-nil zero = refl
take-nil (suc n) = refl

peek_loop-take :
    (pending : ℕ → ZSet) (count : ℕ) (levels : List ℕ) (results : List QueueEntry)
    → length results ≤ count
    → peek_loop pending count levels results
      ≡ results ++ take (count - length results) (backlog pending levels)
unfolding peek_loop
peek_loop-take pending count [] results h =
    rw (take-nil (count - length results)) (sym (append-nil results))
peek_loop-take pending count (p ∷ levels) results h =
    elim (Bool-cases (leb count (length results))) [
      | inl full ↦
          let e : count - length results ≡ 0 = ground arith in
          rw (full, e) (sym (append-nil results))
      | inr room ↦ rw room (
          peek_loop-take pending count levels (results ++ batch) fits
          ∙ append_assoc results batch _
          ∙ ap (λ l. results ++ l) (sym joined))
    ]
  where
    left : ℕ
    left = count - length results

    batch : List QueueEntry
    batch = entries_of p (take left (pending p))

    fits : length (results ++ batch) ≤ count
    fits = omega (
      arith,
      length-append results batch,
      ap length (take-entries_of left p (pending p)),
      length-take left (entries_of p (pending p)),
    )

    joined :
        take left (entries_of p (pending p) ++ backlog pending levels)
        ≡ batch ++ take (count - length (results ++ batch)) (backlog pending levels)
    joined =
        take-append left (entries_of p (pending p)) (backlog pending levels)
        ∙ ap₂ ◌++◌ (sym (take-entries_of left p (pending p))) (
            ap (λ n. take n (backlog pending levels))
              (omega (
                arith,
                length-append results batch,
                ap length (take-entries_of left p (pending p)),
                length-take left (entries_of p (pending p)),
              )))

-- No level is above one before it.
abbrev pub IsDescending : List ℕ → Type 0
IsDescending [] = Unit
IsDescending (a ∷ bs) = All (λ b. b ≤ a) bs × IsDescending bs

raise_bound : (a b : ℕ) (cs : List ℕ) → b ≤ a → All (λ c. c ≤ b) cs → All (λ c. c ≤ a) cs
raise_bound a b [] h k = tt
raise_bound a b (c ∷ cs) h (k, ks) = (omega arith, raise_bound a b cs h ks)

place_down_below :
    (c a : ℕ) (bs : List ℕ) → a ≤ c → All (λ b. b ≤ c) bs → All (λ b. b ≤ c) (place_down a bs)
unfolding place_down
place_down_below c a [] h k = (h, tt)
place_down_below c a (b ∷ bs) h (k, ks) =
    let rest = place_down_below c a bs h ks in
    elim (Bool-cases (ltb a b)) [ inl q ↦ rw q (k, rest) | inr q ↦ rw q (h, (k, ks)) ]

place_down-IsDescending : (a : ℕ) (bs : List ℕ) → IsDescending bs → IsDescending (place_down a bs)
unfolding place_down
place_down-IsDescending a [] h = (tt, tt)
place_down-IsDescending a (b ∷ bs) (k, h) =
    let rest = place_down-IsDescending a bs h in
    elim (Bool-cases (ltb a b)) [
      | inl q ↦ rw q (place_down_below b a bs (ground arith) k, rest)
      | inr q ↦ let p : b ≤ a = ground arith in rw q ((p, raise_bound a b bs p k), (k, h))
    ]

sort_down-IsDescending : (as' : List ℕ) → IsDescending (sort_down as')
unfolding sort_down
sort_down-IsDescending [] = tt
sort_down-IsDescending (a ∷ as') =
    place_down-IsDescending a (sort_down as') (sort_down-IsDescending as')

or_zero-IsDescending : (as' : List ℕ) → IsDescending as' → IsDescending (or_zero as')
or_zero-IsDescending [] h = (tt, tt)
or_zero-IsDescending (a ∷ as') h = h

place_down-In : (p a : ℕ) (bs : List ℕ) → In p (place_down a bs) ↔ In p (a ∷ bs)
unfolding place_down
place_down-In p a [] = (λ m. m, λ m. m)
place_down-In p a (b ∷ bs) =
    let (there, back) = place_down-In p a bs in
    elim (Bool-cases (ltb a b)) [
      | inl q ↦ rw q (
        (λ m. elim m [
          | inl e ↦ inr (inl e)
          | inr k ↦ elim (there k) [ inl e ↦ inl e | inr l ↦ inr (inr l) ]
        ]),
        (λ m. elim m [
          | inl e ↦ inr (back (inl e))
          | inr (inl e) ↦ inl e
          | inr (inr l) ↦ inr (back (inr l))
        ]),
      )
      | inr q ↦ rw q (λ m. m, λ m. m)
    ]

sort_down-In : (p : ℕ) (as' : List ℕ) → In p (sort_down as') ↔ In p as'
unfolding sort_down
sort_down-In p [] = (λ m. m, λ m. m)
sort_down-In p (a ∷ as') =
    let (there, back) = sort_down-In p as' in
    let (out, into) = place_down-In p a (sort_down as') in
    (
      (λ m. elim (out m) [ inl e ↦ inl e | inr k ↦ inr (there k) ]),
      (λ m. elim m [ inl e ↦ into (inl e) | inr k ↦ into (inr (back k)) ]),
    )

or_zero-place_down : (a : ℕ) (bs : List ℕ) → or_zero (place_down a bs) ≡ place_down a bs
unfolding place_down
or_zero-place_down a [] = refl
or_zero-place_down a (b ∷ bs) = elim (Bool-cases (ltb a b)) [
  | inl q ↦ rw q refl
  | inr q ↦ rw q refl
]

levels_kept : (p : ℕ) (levels : List ℕ) → In p (or_zero (sort_down levels)) ↔ In p (or_zero levels)
unfolding sort_down
levels_kept p [] = (λ m. m, λ m. m)
levels_kept p (a ∷ levels) =
    rw (or_zero-place_down a (sort_down levels)) (sort_down-In p (a ∷ levels))

-- `peek_pending` shows the first `count` jobs of everything pending, the levels' queues one after
-- another. The levels are those that the keyspace knows, level 0 when it knows none, and
-- the higher ones come first.
pub peek_pending-take :
    (count : ℕ) (r : Store)
    → (peek_pending count r ≡ take count (backlog r.pending (pending_levels r)))
      × IsDescending (pending_levels r)
      × ((p : ℕ) → In p (pending_levels r) ↔ In p (or_zero r.levels))
unfolding peek_pending pending_levels
peek_pending-take count r = (
  peek_loop-take r.pending count (pending_levels r) [] (omega arith)
      ∙ ap (λ n. take n (backlog r.pending (pending_levels r))) (omega arith),
  or_zero-IsDescending (sort_down r.levels) (sort_down-IsDescending r.levels),
  λ p. levels_kept p r.levels,
)
