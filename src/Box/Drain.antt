-- ===== src/Box/Drain.antt =====
-- Sequences of ticks of deploy/box/scheduler/schedule.py, with changes of the box between them.
use tuzka_as_a_service.Prelude.{
  ℕ, ◌+◌, ◌≤◌, ◌<◌, ◌≡◌, Bool, true, false, none, some, List, [], ◌∷◌, arith, ◌⊎◌, inl, inr,
  Option-cases, or_else, suc, All,
}
use tuzka_as_a_service.Box.Windows.{is_up}
use tuzka_as_a_service.Box.Plan.{close, idle, BoxState, Docker, Config, tick}

-- A tick that stops the running engine of a box with a drain: the gate was closed already, and
-- the deadline of the drain has come.
pub tick_stops :
    (c : Config) (d : Docker) (today minute now : ℕ) (b : BoxState)
    → 0 < c.drain
    → b.engine_exists ≡ true
    → b.engine_running ≡ true
    → (tick c d today minute now b).engine_running ≡ false
    → (b.gate_closed ≡ true) × ((t : ℕ) × (b.deadline ≡ some t) × (t ≤ now))
unfolding tick
tick_stops c d today minute now b g x r h = (
  ground arith,
  elim (Option-cases b.deadline) [
    | inl e ↦ absurd (ground arith)
    | inr (t, e) ↦ (t, e, ground arith)
  ],
)

-- A tick leaves the deadline, clears it, or closes the gate for a drain that starts now.
tick_deadline :
    (c : Config) (d : Docker) (today minute now t : ℕ) (b : BoxState)
    → (tick c d today minute now b).deadline ≡ some t
    → (b.deadline ≡ some t)
      ⊎ (((tick c d today minute now b).acted ≡ close t) × (t ≡ now + c.drain))
unfolding tick
tick_deadline c d today minute now t b h = ground arith

-- What happens to the box between ticks is anybody's doing: a person or a reboot starts and stops
-- containers, and makes or removes the flag. Only the scheduler's memory stays.
pub record Change : Type 0 where
  pub gate_closed : Bool
  pub engine_running : Bool
  pub tunnel_running : Bool

-- A tick's surroundings: how docker answers it, and when it is.
pub record Instant : Type 0 where
  pub docker : Docker
  pub today : ℕ
  pub minute : ℕ
  pub now : ℕ

pub record Moment : Type 0 where
  pub instant : Instant
  pub change : Change

unfoldable pub tick_at : Config → Instant → BoxState → BoxState
unfolding tick
tick_at c i b = tick c i.docker i.today i.minute i.now b

-- Ticks with nothing else between them.
unfoldable pub ticks : Config → List Instant → BoxState → BoxState
unfolding tick_at
ticks c [] b = b
ticks c (i ∷ is') b = ticks c is' (tick_at c i b)

abbrev disturb : Change → BoxState → BoxState
disturb x b = record b {
  gate_closed = x.gate_closed;
  engine_running = x.engine_running;
  tunnel_running = x.tunnel_running;
}

-- `run`: ticks, and changes between them.
unfoldable pub run : Config → List Moment → BoxState → BoxState
unfolding tick_at
run c [] b = b
run c (m ∷ ms) b = run c ms (disturb m.change (tick_at c m.instant b))

-- One of the ticks closed the gate for a drain that ends at `t`.
abbrev pub StartedDrain : Config → ℕ → List Moment → BoxState → Type 0
StartedDrain c t [] b = ⊥
StartedDrain c t (m ∷ ms) b =
    (((tick_at c m.instant b).acted ≡ close t) × (t ≡ m.instant.now + c.drain))
    ⊎ StartedDrain c t ms (disturb m.change (tick_at c m.instant b))

run_deadline :
    (c : Config) (ms : List Moment) (b : BoxState) (t : ℕ)
    → (run c ms b).deadline ≡ some t
    → (b.deadline ≡ some t) ⊎ StartedDrain c t ms b
unfolding run tick_at
run_deadline c [] b t h = inl h
run_deadline c (m ∷ ms) b t h =
    let i = m.instant in
    elim (run_deadline c ms (disturb m.change (tick_at c i b)) t h) [
      | inl e ↦ elim (tick_deadline c i.docker i.today i.minute i.now t b e) [
        | inl f ↦ inl f
        | inr f ↦ inr (inl f)
      ]
      | inr e ↦ inr (inr e)
    ]

-- With a drain above 0 and a scheduler that starts without a deadline, whatever happens to the box
-- between ticks, a tick stops a running engine only when it finds the gate closed and an earlier
-- tick closed it for a drain that is over by now: that tick is at least the whole drain ago.
pub stop_after_drain :
    (c : Config) (ms : List Moment) (b : BoxState) (d : Docker) (today minute now : ℕ)
    → 0 < c.drain
    → b.deadline ≡ none
    → (run c ms b).engine_exists ≡ true
    → (run c ms b).engine_running ≡ true
    → (tick c d today minute now (run c ms b)).engine_running ≡ false
    → ((run c ms b).gate_closed ≡ true) × ((t : ℕ) × StartedDrain c t ms b × (t ≤ now))
stop_after_drain c ms b d today minute now g e x r h =
    let (shut, (t, due, past)) = tick_stops c d today minute now (run c ms b) g x r h in
    (shut, (t, elim (run_deadline c ms b t due) [ inl f ↦ cc | inr f ↦ f ], past))

abbrev pub IsUpAt : Config → Instant → Type 0
IsUpAt c i = is_up c.windows i.today i.minute ≡ true

abbrev pub IsDownAt : Config → Instant → Type 0
IsDownAt c i = is_up c.windows i.today i.minute ≡ false

abbrev pub Serves : BoxState → Type 0
Serves b = (b.gate_closed ≡ false) × (b.engine_running ≡ true)

-- A box that serves is left to serve by a tick in a window.
tick_at-Serves :
    (c : Config) (i : Instant) (b : BoxState)
    → IsUpAt c i
    → Serves b
    → Serves (tick_at c i b) × ((tick_at c i b).acted ≡ idle)
unfolding tick_at tick
tick_at-Serves c i b u (g, r) = ((ground arith, ground arith), ground arith)

ticks-Serves :
    (c : Config) (is' : List Instant) (b : BoxState)
    → All (IsUpAt c) is'
    → Serves b
    → Serves (ticks c is' b)
unfolding ticks
ticks-Serves c [] b u s = s
ticks-Serves c (i ∷ is') b (u, us) s =
    ticks-Serves c is' (tick_at c i b) us (tick_at-Serves c i b u s).0

-- In a window, with docker answering and an engine to start, one tick brings the box up. Any later
-- tick, after any others, finds nothing to do and the box serving, as long as all are in a window and
-- nobody else touches the box, however docker answers them.
pub tick_brings_up :
    (c : Config) (first : Instant) (between : List Instant) (last : Instant) (b : BoxState)
    → IsUpAt c first
    → first.docker.lists ≡ true
    → first.docker.lists_all ≡ true
    → first.docker.starts ≡ true
    → b.engine_exists ≡ true
    → All (IsUpAt c) between
    → IsUpAt c last
    → let up = tick_at c first b in
      let later = tick_at c last (ticks c between up) in
      Serves up × Serves later × (later.acted ≡ idle)
unfolding tick_at tick
tick_brings_up c first between last b u l a s e us v =
    let up : Serves (tick_at c first b) = (ground arith, ground arith) in
    let kept = ticks-Serves c between (tick_at c first b) us up in
    let (still, quiet) = tick_at-Serves c last (ticks c between (tick_at c first b)) v kept in
    (up, still, quiet)

-- The gate is closed, and the engine is stopped or due to stop by `t`.
abbrev Closing : Config → ℕ → BoxState → Type 0
Closing c t b =
    (b.gate_closed ≡ true)
    × ((b.engine_running ≡ false) ⊎ (c.drain ≡ 0) ⊎ (or_else b.deadline (suc t) ≤ t))

tick_closes :
    (c : Config) (i : Instant) (b : BoxState)
    → IsDownAt c i
    → i.docker.lists ≡ true
    → or_else b.deadline 0 ≤ i.now + c.drain
    → Closing c (i.now + c.drain) (tick_at c i b)
unfolding tick_at tick
tick_closes c i b u l q = (ground arith, ground arith)

tick_at-Closing :
    (c : Config) (i : Instant) (t : ℕ) (b : BoxState)
    → IsDownAt c i
    → Closing c t b
    → Closing c t (tick_at c i b)
unfolding tick_at tick
tick_at-Closing c i t b u (g, r) = (ground arith, ground arith)

ticks-Closing :
    (c : Config) (is' : List Instant) (t : ℕ) (b : BoxState)
    → All (IsDownAt c) is'
    → Closing c t b
    → Closing c t (ticks c is' b)
unfolding ticks
ticks-Closing c [] t b u h = h
ticks-Closing c (i ∷ is') t b (u, us) h =
    ticks-Closing c is' t (tick_at c i b) us (tick_at-Closing c i t b u h)

tick_stops_due :
    (c : Config) (i : Instant) (t : ℕ) (b : BoxState)
    → IsDownAt c i
    → i.docker.lists ≡ true
    → i.docker.lists_tunnel ≡ true
    → i.docker.stops ≡ true
    → t ≤ i.now
    → Closing c t b
    → ((tick_at c i b).gate_closed ≡ true) × ((tick_at c i b).engine_running ≡ false)
unfolding tick_at tick
tick_stops_due c i t b u l a s p (g, r) = (ground arith, ground arith)

-- Out of window, from a tick to which docker lists the containers and that finds no deadline
-- further off than a drain, to any tick at least the drain later to which docker answers: that leaves
-- the gate closed and the engine stopped. Any ticks may lie between, however docker answers them,
-- as long as all are out of window and nobody else touches the box.
pub ticks_bring_down :
    (c : Config) (first : Instant) (between : List Instant) (last : Instant) (b : BoxState)
    → IsDownAt c first
    → first.docker.lists ≡ true
    → or_else b.deadline 0 ≤ first.now + c.drain
    → All (IsDownAt c) between
    → IsDownAt c last
    → last.docker.lists ≡ true
    → last.docker.lists_tunnel ≡ true
    → last.docker.stops ≡ true
    → first.now + c.drain ≤ last.now
    → let down = tick_at c last (ticks c between (tick_at c first b)) in
      (down.gate_closed ≡ true) × (down.engine_running ≡ false)
ticks_bring_down c first between last b u l q us v l' a s p =
    let due = first.now + c.drain in
    let closing =
      ticks-Closing c between due (tick_at c first b) us (tick_closes c first b u l q) in
    tick_stops_due c last due (ticks c between (tick_at c first b)) v l' a s p closing
