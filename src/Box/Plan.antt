-- ===== src/Box/Plan.antt =====
-- A tick of deploy/box/scheduler/schedule.py: what it does with the box, from what it observes.
use tuzka_as_a_service.Prelude.{
  ℕ, ◌+◌, Bool, true, false, ◌&&◌, ◌||◌, not, Option, none, some, List, leb, ◌==◌, if◌then◌else◌,
  min,
}
use tuzka_as_a_service.Box.Windows.{Window, is_up}

-- Times are ticks of a clock.
pub data Action : Type 0 where
  start : Action
  close : ℕ → Action
  stop_engine close_stop : Action
  wait : ℕ → Action
  idle : Action

-- `plan`. A plan's drain deadline is the argument of its action, `close` or `wait`.
abbrev drain_left : Option ℕ → ℕ → ℕ → Action
drain_left none now drain = close (now + drain)
drain_left (some deadline) now drain = if leb deadline now then stop_engine else wait deadline

unfoldable pub plan : Bool → Bool → Bool → Option ℕ → ℕ → ℕ → Action
plan want_up gate_closed engine_running drain_deadline now drain =
    if want_up
    then (if engine_running && not gate_closed then idle else start)
    else (if not engine_running
        then (if gate_closed then idle else close_stop)
        else (if drain == 0
            then close_stop
            else (if not gate_closed
                then close (now + drain)
                else drain_left drain_deadline now drain)))

-- The box: the gate's flag file, the containers that there are, and those of the engine and the
-- tunnel that run; with the scheduler's own memory.
pub record BoxState : Type 0 where
  pub engine_exists : Bool
  pub tunnel_exists : Bool
  pub gate_exists : Bool
  pub gate_closed : Bool
  pub engine_running : Bool
  pub tunnel_running : Bool
  pub deadline : Option ℕ
  pub acted : Action

pub record Config : Type 0 where
  pub windows : List Window
  pub drain : ℕ
  pub poll : ℕ
  pub stop_tunnel : Bool

-- Whether docker answers in this tick. A refused command raises, and the tick ends there; a
-- refused start or stop may have reached some of the containers.
pub record Docker : Type 0 where
  pub lists : Bool
  pub lists_all : Bool
  pub starts : Bool
  pub lists_tunnel : Bool
  pub stops : Bool
  pub half_started : Bool
  pub half_stopped : Bool

-- `_start`: the gate opens before docker is asked to start the containers.
abbrev do_start : Docker → BoxState → BoxState
do_start d b =
    if not d.lists_all
    then b
    else (if not (b.engine_exists || b.tunnel_exists || b.gate_exists)
        then record b { acted = idle }
        else (if d.starts
            then record b {
              gate_closed = false;
              engine_running = b.engine_exists;
              tunnel_running = b.tunnel_exists;
              deadline = none;
            }
            else record b {
              gate_closed = false;
              engine_running = b.engine_running || (b.engine_exists && d.half_started);
            }))

-- `_close`.
abbrev do_close : ℕ → BoxState → BoxState
do_close deadline b = record b { gate_closed = true; deadline = some deadline }

-- `_stop`: with nothing to stop docker is not called.
abbrev do_stop : Config → Docker → BoxState → BoxState
do_stop c d b =
    let shut = record b { gate_closed = true } in
    if c.stop_tunnel && not d.lists_tunnel
    then shut
    else (if not (b.engine_running || (c.stop_tunnel && b.tunnel_running))
        then record shut { deadline = none }
        else (if d.stops
            then record shut {
              engine_running = false;
              tunnel_running = b.tunnel_running && not c.stop_tunnel;
              deadline = none;
            }
            else record shut { engine_running = b.engine_running && not d.half_stopped }))

abbrev act : Config → Docker → Action → BoxState → BoxState
act c d start b = do_start d b
act c d (close deadline) b = do_close deadline b
act c d stop_engine b = do_stop c d b
act c d close_stop b = do_stop c d b
act c d (wait deadline) b = b
act c d idle b = b

-- `Scheduler.tick`, at a moment that is `today` and `minute` of the week and `now` of the clock.
unfoldable pub tick : Config → Docker → ℕ → ℕ → ℕ → BoxState → BoxState
unfolding plan is_up
tick c d today minute now b =
    let b0 = record b { acted = idle } in
    if not d.lists
    then b0
    else (let a =
          plan (is_up c.windows today minute) b.gate_closed b.engine_running b.deadline now
            c.drain in
        act c d a (record b0 { acted = a }))

abbrev pub is_idle : Action → Bool
is_idle idle = true
is_idle (wait deadline) = true
is_idle _ = false

-- `next_wait`, in seconds.
unfoldable pub next_wait : Config → BoxState → ℕ
next_wait c b = if is_idle b.acted then c.poll else min c.poll 5
