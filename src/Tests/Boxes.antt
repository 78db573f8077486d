-- ===== src/Tests/Boxes.antt =====
-- The theorems on the box scheduler and the poller at concrete inputs.
use tuzka_as_a_service.Prelude.{
  ℕ, ◌+◌, ◌*◌, ◌≤◌, ◌≡◌, refl, true, false, none, List, [], ◌∷◌, arith, In, All, ◌⊎◌, ◌↔◌,
}
use tuzka_as_a_service.Box.Windows.{Window, is_up}
use tuzka_as_a_service.Box.Plan.{idle, BoxState, Docker, Config, tick, plan}
use tuzka_as_a_service.Box.Calendar.{IsWindow, AnyCovers, is_up_iff}
use tuzka_as_a_service.Box.Drain.{
  Instant, Moment, StartedDrain, Serves, tick_at, ticks, run, stop_after_drain, tick_brings_up,
  ticks_bring_down,
}
use tuzka_as_a_service.Poller.Plan.{
  PollOutcome, unreachable, poll, plan_polls, IsSorted, plan_polls-IsSorted,
}
use tuzka_as_a_service.Poller.Window.{
  Round, IsSliding, fill_slots, poll_round, drain_poll_queue, times, drain_poll_queue-IsSliding,
  drain_poll_queue_ends,
}
use tuzka_as_a_service.Poller.Timing.{next_poll_timeout, next_poll_timeout_lem}
use tuzka_as_a_service.Tests.Keyspace.{page}

-- From 22:00 to 06:00 on Mondays.
abbrev nights : List Window
nights = record { days = 0 ∷ []; start = 1320; stop = 360 } ∷ []

night-IsWindow : IsWindow (record { days = 0 ∷ []; start = 1320; stop = 360 })
night-IsWindow = record {
  days_in_week = λ day m. ground arith;
  start_in_day = omega arith;
  stop_in_day = omega arith;
}

is_up_iff_example : (is_up nights 1 300 ≡ true) ↔ AnyCovers nights (1 * 1440 + 300)
is_up_iff_example = is_up_iff nights 1 300 (night-IsWindow, tt) (omega arith) (omega arith)

abbrev config : Config
config = record { windows = nights; drain = 600; poll = 60; stop_tunnel = false }

abbrev docker : Docker
docker = record {
  lists = true;
  lists_all = true;
  starts = true;
  lists_tunnel = true;
  stops = true;
  half_started = false;
  half_stopped = false;
}

abbrev box : BoxState
box = record {
  engine_exists = true;
  tunnel_exists = true;
  gate_exists = true;
  gate_closed = false;
  engine_running = true;
  tunnel_running = true;
  deadline = none;
  acted = idle;
}

-- Out of window: Thursday at midnight and a quarter of an hour later.
abbrev midnight : Instant
midnight = record { docker = docker; today = 3; minute = 0; now = 1000 }

abbrev failing : Instant
failing = record { docker = record docker { lists = false }; today = 3; minute = 5; now = 1300 }

abbrev quarter_past : Instant
quarter_past = record { docker = docker; today = 3; minute = 15; now = 1900 }

-- A tick out of window, and nobody touched the box after it.
abbrev closing : List Moment
closing =
    record {
      instant = midnight;
      change = record { gate_closed = true; engine_running = true; tunnel_running = true };
    }
    ∷ []

stop_after_drain_example :
    ((run config closing box).gate_closed ≡ true)
    × ((t : ℕ) × StartedDrain config t closing box × (t ≤ 1900))
unfolding run tick_at tick is_up plan
stop_after_drain_example =
    stop_after_drain config closing box docker 3 15 1900 (omega arith) refl refl refl refl

-- Mondays at 22:30, 22:35 and 22:40.
abbrev evening : Instant
evening = record { docker = docker; today = 0; minute = 1350; now = 1000 }

abbrev refused : Instant
refused = record { docker = record docker { lists = false }; today = 0; minute = 1355; now = 1300 }

abbrev at_night : Instant
at_night = record { docker = docker; today = 0; minute = 1360; now = 1600 }

abbrev stopped_box : BoxState
stopped_box = record box { gate_closed = true; engine_running = false; tunnel_running = false }

tick_brings_up_example :
    let up = tick_at config evening stopped_box in
    let later = tick_at config at_night (ticks config (refused ∷ []) up) in
    Serves up × Serves later × (later.acted ≡ idle)
unfolding is_up
tick_brings_up_example =
    tick_brings_up config evening (refused ∷ []) at_night stopped_box refl refl refl refl refl
      (refl, tt) refl

ticks_bring_down_example :
    let down =
      tick_at config quarter_past (ticks config (failing ∷ []) (tick_at config midnight box)) in
    (down.gate_closed ≡ true) × (down.engine_running ≡ false)
unfolding is_up
ticks_bring_down_example =
    ticks_bring_down config midnight (failing ∷ []) quarter_past box refl refl (omega arith)
      (refl, tt) refl refl refl refl (omega arith)

abbrev outcome : PollOutcome
outcome = record {
  job_id = 7;
  status = unreachable;
  state = page;
  run = record { created_at = none; started_at = none; finished_at = none; metrics = [] };
  retryable = true;
  http_status = none;
  error_text = none;
  stage = poll;
}

plan_polls-IsSorted_example :
    IsSorted
      (λ s. [])
      (outcome ∷ outcome ∷ [])
      3
      (plan_polls (λ s. []) (outcome ∷ outcome ∷ []) 3 100 (λ i bound. bound) 0)
plan_polls-IsSorted_example =
    plan_polls-IsSorted (λ s. []) (outcome ∷ outcome ∷ []) 3 100 (λ i bound. bound) 0
      (λ i bound. omega arith)

next_poll_timeout_lem_example :
    let wake = 10 + next_poll_timeout (14 ∷ 12 ∷ []) 10 5 in
    (wake ≤ 10 + 5)
    × All (λ d. (wake ≤ d) ⊎ ((wake ≡ 10) × (d ≤ 10))) (14 ∷ 12 ∷ [])
    × ((wake ≡ 10 + 5)
        ⊎ In wake (14 ∷ 12 ∷ [])
        ⊎ ((wake ≡ 10) × ((d : ℕ) × In d (14 ∷ 12 ∷ []) × (d ≤ 10))))
next_poll_timeout_lem_example = next_poll_timeout_lem (14 ∷ 12 ∷ []) 10 5

abbrev finishes : Round
finishes = record { completed = λ id. true; stop = false }

drain_poll_queue-IsSliding_example :
    IsSliding 2 (4 ∷ 5 ∷ 6 ∷ []) (drain_poll_queue 2 false (4 ∷ 5 ∷ 6 ∷ []) (finishes ∷ []))
drain_poll_queue-IsSliding_example =
    drain_poll_queue-IsSliding 2 false (4 ∷ 5 ∷ 6 ∷ []) (finishes ∷ [])

drain_poll_queue_ends_example :
    times 6 (drain_poll_queue 2 false (4 ∷ 5 ∷ 6 ∷ []) (finishes ∷ finishes ∷ [])).checked
    ≡ times 6 (4 ∷ 5 ∷ 6 ∷ [])
unfolding drain_poll_queue fill_slots poll_round
drain_poll_queue_ends_example =
    drain_poll_queue_ends 2 (4 ∷ 5 ∷ 6 ∷ []) (finishes ∷ finishes ∷ []) 6 (omega arith)
      (refl, (refl, tt)) refl
