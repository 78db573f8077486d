-- ===== src/Poller/Window.antt =====
-- The sliding window of status checks: `drain_poll_queue` of app/workers/poller/steps.py. Each
-- round, the event loop says which active checks are done and whether the worker is to stop.
use tuzka_as_a_service.Prelude.{
  length-keep, ℕ, suc, ◌+◌, ◌≤◌, ◌<◌, ◌≡◌, refl, Bool, false, ◌&&◌, not, List, [], ◌∷◌, ◌++◌, arith,
  ltb, ◌==◌, if◌then◌else◌, keep, length, All,
}

-- The jobs still to check, those being checked, and those checked (or whose check raised).
pub record PollPass : Type 0 where
  pub pending : List ℕ
  pub active : List ℕ
  pub checked : List ℕ

-- `fill_slots`.
unfoldable pub fill_slots : ℕ → Bool → List ℕ → List ℕ → List ℕ × List ℕ
fill_slots concurrency stop [] active = ([], active)
fill_slots concurrency stop (id ∷ pending) active =
    let filled = fill_slots concurrency stop pending (id ∷ active) in
    if ltb (length active) concurrency && not stop then filled else (id ∷ pending, active)

pub record Round : Type 0 where
  pub completed : ℕ → Bool
  pub stop : Bool

-- One turn of the loop.
unfoldable pub poll_round : ℕ → Round → PollPass → PollPass
unfolding fill_slots
poll_round concurrency x p =
    let (pending, active) =
      fill_slots concurrency x.stop p.pending (keep (λ id. not (x.completed id)) p.active) in
    record { pending = pending; active = active; checked = keep x.completed p.active ++ p.checked }

-- `drain_poll_queue` after some rounds, the last one first; `stop` is the event's state before.
unfoldable pub drain_poll_queue : ℕ → Bool → List ℕ → List Round → PollPass
unfolding poll_round
drain_poll_queue concurrency stop due [] =
    let (pending, active) = fill_slots concurrency stop due [] in
    record { pending = pending; active = active; checked = [] }
drain_poll_queue concurrency stop due (x ∷ earlier) =
    poll_round concurrency x (drain_poll_queue concurrency stop due earlier)

abbrev pub times : ℕ → List ℕ → ℕ
times a [] = 0
times a (x ∷ xs) = let rest = times a xs in if x == a then suc rest else rest

-- At most `concurrency` checks are active, and every due job is as often pending, active or
-- checked as it was due.
pub record IsSliding (concurrency : ℕ) (due : List ℕ) (p : PollPass) : Type 0 where
  pub bounded : length p.active ≤ concurrency
  pub all_there : (a : ℕ) → times a p.pending + times a p.active + times a p.checked ≡ times a due

fill_slots-bounded :
    (c : ℕ) (stop : Bool) (pending active : List ℕ)
    → length active ≤ c
    → length (fill_slots c stop pending active).1 ≤ c
unfolding fill_slots
fill_slots-bounded c stop [] active h = h
fill_slots-bounded c stop (id ∷ pending) active h =
    ground (arith, fill_slots-bounded c stop pending (id ∷ active))

times-fill_slots :
    (c : ℕ) (stop : Bool) (a : ℕ) (pending active : List ℕ)
    → times a (fill_slots c stop pending active).0 + times a (fill_slots c stop pending active).1
      ≡ times a pending + times a active
unfolding fill_slots
times-fill_slots c stop a [] active = refl
times-fill_slots c stop a (id ∷ pending) active =
    ground (arith, times-fill_slots c stop a pending (id ∷ active))

times-append : (a : ℕ) (xs ys : List ℕ) → times a (xs ++ ys) ≡ times a xs + times a ys
times-append a [] ys = omega arith
times-append a (x ∷ xs) ys = ground (arith, times-append a xs ys)

times-keep :
    (a : ℕ) (q : ℕ → Bool) (xs : List ℕ)
    → times a (keep (λ x. not (q x)) xs) + times a (keep q xs) ≡ times a xs
times-keep a q [] = omega arith
times-keep a q (x ∷ xs) = ground (arith, times-keep a q xs)

-- In every round, whichever checks finish and whenever the worker is asked to stop, at most
-- `concurrency` checks are active, and no due job is lost or checked twice: it is as often
-- pending, active or checked as it was due.
pub drain_poll_queue-IsSliding :
    (concurrency : ℕ) (stop : Bool) (due : List ℕ) (rounds : List Round)
    → IsSliding concurrency due (drain_poll_queue concurrency stop due rounds)
unfolding drain_poll_queue
drain_poll_queue-IsSliding c stop due [] = record {
  bounded = fill_slots-bounded c stop due [] (omega arith);
  all_there = λ a. omega (arith, times-fill_slots c stop a due []);
}
drain_poll_queue-IsSliding c stop due (x ∷ rounds) =
    let p = drain_poll_queue c stop due rounds in
    let w = drain_poll_queue-IsSliding c stop due rounds in
    let left = keep (λ id. not (x.completed id)) p.active in
    record {
      bounded =
          fill_slots-bounded c x.stop p.pending left
            (omega (arith, w.bounded, length-keep (λ id. not (x.completed id)) p.active));
      all_there = λ a. omega (
        arith,
        w.all_there a,
        times-fill_slots c x.stop a p.pending left,
        times-keep a x.completed p.active,
        times-append a (keep x.completed p.active) p.checked,
      );
    }

fill_slots-full :
    (c : ℕ) (stop : Bool) (pending active : List ℕ)
    → 0 < c
    → stop ≡ false
    → (fill_slots c stop pending active).1 ≡ []
    → (fill_slots c stop pending active).0 ≡ []
unfolding fill_slots
fill_slots-full c stop [] active h s e = refl
fill_slots-full c stop (id ∷ pending) active h s e =
    ground (arith, fill_slots-full c stop pending (id ∷ active))

abbrev pub GoesOn : Round → Type 0
GoesOn x = x.stop ≡ false

nothing_pending :
    (c : ℕ) (due : List ℕ) (rounds : List Round)
    → 0 < c
    → All GoesOn rounds
    → (drain_poll_queue c false due rounds).active ≡ []
    → (drain_poll_queue c false due rounds).pending ≡ []
unfolding drain_poll_queue
nothing_pending c due [] h g e = fill_slots-full c false due [] h refl e
nothing_pending c due (x ∷ rounds) h g e = fill_slots-full c x.stop _ _ h g.0 e

-- When the loop ends, with no check active, of a pass that is never asked to stop and may check at
-- least one job at a time, every due job was checked exactly as often as it was due.
pub drain_poll_queue_ends :
    (concurrency : ℕ) (due : List ℕ) (rounds : List Round) (a : ℕ)
    → 0 < concurrency
    → All GoesOn rounds
    → (drain_poll_queue concurrency false due rounds).active ≡ []
    → times a (drain_poll_queue concurrency false due rounds).checked ≡ times a due
drain_poll_queue_ends c due rounds a h g e =
    let w = (drain_poll_queue-IsSliding c false due rounds).all_there a in
    let none_left : (drain_poll_queue c false due rounds).pending ≡ [] =
      nothing_pending c due rounds h g e in
    let v : times a [] + times a [] + times a (drain_poll_queue c false due rounds).checked
        ≡ times a due =
      rw (none_left, e) at w in
    omega (arith, v)
