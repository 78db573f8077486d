-- ===== src/Poller/Timing.antt =====
-- When the poller checks a job next, and how long it sleeps (app/workers/poller/steps.py).
use native.Mathlib.Nat.{pow-suc}
use tuzka_as_a_service.Prelude.{
  ℕ, zero, suc, ◌+◌, ◌-◌, ◌*◌, ◌^◌, ◌≤◌, ◌<◌, ◌≡◌, refl, Option, none, some, List, [], ◌∷◌, min,
  max, arith, ◌⊎◌, inl, inr, In, All, All-of, ◌∙◌, subst, sym,
}

-- `x or now`: a time of 0 counts as none.
abbrev pub or_now : Option ℕ → ℕ → ℕ
or_now none now = now
or_now (some zero) now = now
or_now (some (suc t)) now = suc t

-- `next_poll_delay`. A gap below 0 becomes 0, which the lower bound lifts the same.
unfoldable pub next_poll_delay : Option ℕ → Option ℕ → ℕ → ℕ → ℕ → ℕ
next_poll_delay next_poll_at last_poll now initial cap =
    min (max ((or_now next_poll_at now - or_now last_poll now) * 2) initial) cap

abbrev soonest : ℕ → List ℕ → ℕ
soonest d [] = d
soonest d (e ∷ deadlines) = soonest (min d e) deadlines

-- `next_poll_timeout`.
unfoldable pub next_poll_timeout : List ℕ → ℕ → ℕ → ℕ
next_poll_timeout [] now cap = cap
next_poll_timeout (d ∷ deadlines) now cap = min cap (soonest d deadlines - now)

soonest-le : (d : ℕ) (ds : List ℕ) → (soonest d ds ≤ d) × ((e : ℕ) → In e ds → soonest d ds ≤ e)
soonest-le d [] = (omega arith, λ e m. absurd m)
soonest-le d (e ∷ ds) =
    let (p, q) = soonest-le (min d e) ds in
    (omega arith, λ x m. elim m [ inl r ↦ omega arith | inr k ↦ q x k ])

soonest-In : (d : ℕ) (ds : List ℕ) → (soonest d ds ≡ d) ⊎ In (soonest d ds) ds
soonest-In d [] = inl refl
soonest-In d (e ∷ ds) = elim (soonest-In (min d e) ds) [ inl q ↦ split_min q | inr m ↦ inr (inr m) ]
  where
    split_min :
        soonest (min d e) ds ≡ min d e
        → (soonest (min d e) ds ≡ d) ⊎ In (soonest (min d e) ds) (e ∷ ds)
    split_min q = elim (pick (min d e) refl) [ inl p ↦ inl (q ∙ p) | inr p ↦ inr (inl (q ∙ p)) ]
      where
        pick : (k : ℕ) → k ≡ min d e → (min d e ≡ d) ⊎ (min d e ≡ e)
        pick k p = omega arith

soonest_listed : (d : ℕ) (ds : List ℕ) → In (soonest d ds) (d ∷ ds)
soonest_listed d ds = soonest-In d ds

-- The poller sleeps the whole cap, or up to a deadline, or not at all, and the last only when a
-- deadline has passed. It never sleeps past the cap, nor past a deadline that is still to come.
pub next_poll_timeout_lem :
    (deadlines : List ℕ) (now cap : ℕ)
    → let wake = now + next_poll_timeout deadlines now cap in
      (wake ≤ now + cap)
      × All (λ d. (wake ≤ d) ⊎ ((wake ≡ now) × (d ≤ now))) deadlines
      × ((wake ≡ now + cap)
          ⊎ In wake deadlines
          ⊎ ((wake ≡ now) × ((d : ℕ) × In d deadlines × (d ≤ now))))
unfolding next_poll_timeout
next_poll_timeout_lem [] now cap = (omega arith, tt, inl refl)
next_poll_timeout_lem (d ∷ ds) now cap = (
  omega arith,
  (passed d (soonest-le d ds).0, All-of _ ds (λ e k. passed e ((soonest-le d ds).1 e k))),
  reasons,
)
  where
    wake : ℕ
    wake = now + min cap (soonest d ds - now)

    passed : (e : ℕ) → soonest d ds ≤ e → (wake ≤ e) ⊎ ((wake ≡ now) × (e ≤ now))
    passed e h = ground arith

    near : (e : ℕ) → soonest d ds ≡ e → (wake ≡ now + cap) ⊎ (wake ≡ e) ⊎ ((wake ≡ now) × (e ≤ now))
    near e q = ground arith

    reasons :
        (wake ≡ now + cap)
        ⊎ In wake (d ∷ ds)
        ⊎ ((wake ≡ now) × ((e : ℕ) × In e (d ∷ ds) × (e ≤ now)))
    reasons = elim (near (soonest d ds) refl) [
      | inl a ↦ inl a
      | inr (inl c) ↦ inr (inl (subst (λ x. In x (d ∷ ds)) (sym c) (soonest_listed d ds)))
      | inr (inr (b, h)) ↦ inr (inr (b, (soonest d ds, soonest_listed d ds, h)))
    ]

-- The gaps between the checks of a job that keeps running: each is the delay worked out at the
-- check before, from the times that check stored.
unfoldable pub gap : ℕ → ℕ → (ℕ → ℕ) → ℕ → ℕ
unfolding next_poll_delay
gap initial cap at zero = next_poll_delay none none (at 0) initial cap
gap initial cap at (suc k) =
    next_poll_delay (some (at k + gap initial cap at k)) (some (at k)) (at (suc k)) initial cap

pow_pos : (k : ℕ) → 0 < 2 ^ k
pow_pos zero = omega arith
pow_pos (suc k) = let h = pow_pos k in rw pow-suc (grind arith)

pow_twice : (initial k : ℕ) → initial * 2 ^ suc k ≡ 2 * (initial * 2 ^ k)
pow_twice initial k = rw pow-suc (grind arith)

initial-le : (initial k : ℕ) → initial ≤ initial * 2 ^ k
initial-le initial k = let e : 0 < 2 ^ k = pow_pos k in grind arith

doubled :
    (initial cap k : ℕ)
    → initial ≤ cap
    → min (max (min (initial * 2 ^ k) cap * 2) initial) cap ≡ min (initial * 2 ^ suc k) cap
doubled initial cap k h = omega (arith, pow_twice initial k, initial-le initial k)

-- Whenever the checks are made (at any times but 0), the k-th gap is the initial one doubled k
-- times, up to the cap.
pub gap_doubles :
    (initial cap : ℕ) (at : ℕ → ℕ) (k : ℕ)
    → initial ≤ cap
    → ((i : ℕ) → 0 < at i)
    → gap initial cap at k ≡ min (initial * 2 ^ k) cap
unfolding gap
gap_doubles initial cap at zero h p = ground arith
gap_doubles initial cap at (suc k) h p =
    ground (arith, gap_doubles initial cap at k h p, p k, doubled initial cap k h)
