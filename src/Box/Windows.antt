-- ===== src/Box/Windows.antt =====
-- Windows of deploy/box/scheduler/schedule.py, and whether a moment of the week falls in one.
use tuzka_as_a_service.Prelude.{
  ℕ, ◌+◌, ◌%◌, Bool, false, ◌&&◌, ◌||◌, List, [], ◌∷◌, ltb, leb, if◌then◌else◌, member,
}

abbrev pub minutes_per_day : ℕ
minutes_per_day = 1440

-- Days count from Monday, 0. `start` and `stop` are minutes past midnight.
pub record Window : Type 0 where
  pub days : List ℕ
  pub start : ℕ
  pub stop : ℕ

abbrev pub in_window : Window → ℕ → ℕ → Bool
in_window w today minute =
    if ltb w.start w.stop
    then member today w.days && (leb w.start minute && ltb minute w.stop)
    else member today w.days && leb w.start minute
      || (member ((today + 6) % 7) w.days && ltb minute w.stop)

-- `is_up`, of a weekday and a minute of the day. Yesterday is `(today - 1) % 7`.
unfoldable pub is_up : List Window → ℕ → ℕ → Bool
is_up [] today minute = false
is_up (w ∷ windows) today minute = in_window w today minute || is_up windows today minute
