-- ===== src/Box/Calendar.antt =====
-- `is_up` of deploy/box/scheduler/schedule.py against the calendar: the minutes of a week.
use native.Mathlib.Nat.{add_assoc}
use tuzka_as_a_service.Prelude.{
  ℕ, ◌+◌, ◌-◌, ◌*◌, ◌%◌, ◌≤◌, ◌<◌, ◌≡◌, true, ◌&&◌, List, [], ◌∷◌, ltb, leb, if◌then◌else◌, member,
  All, arith, ◌⊎◌, inl, inr, Bool-cases, ◌↔◌, subst,
}
use tuzka_as_a_service.Box.Windows.{Window, in_window, is_up}

-- How long a window lasts; one that does not end after its start ends the next day.
abbrev pub minutes_of : Window → ℕ
minutes_of w = if ltb w.start w.stop then w.stop - w.start else 1440 + w.stop - w.start

-- The minute of the week lies in the window as opened on one of its days: that many minutes after
-- its start, counted round the week.
abbrev pub Covers : Window → ℕ → Type 0
Covers w moment =
    (day : ℕ) × (k : ℕ) × (member day w.days ≡ true)
    × (k < minutes_of w)
    × ((day * 1440 + w.start + k) % 10080 ≡ moment)

-- What the parser yields.
pub record IsWindow (w : Window) : Type 0 where
  pub days_in_week : (day : ℕ) → member day w.days ≡ true → day < 7
  pub start_in_day : w.start ≤ 1440
  pub stop_in_day : w.stop ≤ 1440

in_window-Covers :
    (w : Window) (today minute : ℕ)
    → today < 7
    → minute < 1440
    → w.start ≤ 1440
    → in_window w today minute ≡ true
    → Covers w (today * 1440 + minute)
in_window-Covers w today minute t m s h = elim (Bool-cases (ltb w.start w.stop)) [
  | inl straight ↦ (today, minute - w.start, ground arith, ground arith, ground arith)
  | inr wraps ↦ elim (Bool-cases (member today w.days && leb w.start minute)) [
    | inl head ↦ (today, minute - w.start, ground arith, ground arith, ground arith)
    | inr tail ↦ ((today + 6) % 7, 1440 - w.start + minute, ground arith, ground arith, omega arith)
  ]
]

same_day :
    (day today x m : ℕ)
    → day < 7
    → today < 7
    → x < 1440
    → m < 1440
    → (day * 1440 + x) % 10080 ≡ today * 1440 + m
    → (day ≡ today) × (x ≡ m)
same_day day today x m a b c d e = (omega arith, omega arith)

next_day :
    (day today x m : ℕ)
    → day < 7
    → today < 7
    → 1440 ≤ x
    → x < 2880
    → m < 1440
    → (day * 1440 + x) % 10080 ≡ today * 1440 + m
    → (day ≡ (today + 6) % 7) × (x ≡ m + 1440)
next_day day today x m a b c c' d e = (omega arith, omega arith)

Covers-in_window :
    (w : Window) (today minute : ℕ)
    → IsWindow w
    → today < 7
    → minute < 1440
    → Covers w (today * 1440 + minute)
    → in_window w today minute ≡ true
Covers-in_window w today minute v t m (day, k, d, lt, e) =
    elim (Bool-cases (ltb (w.start + k) 1440)) [
      | inl same ↦
          let (p, q) =
            same_day day today (w.start + k) minute (v.days_in_week day d) t (ground arith) m
              (rw (← add_assoc) e) in
          let d' : member today w.days ≡ true = subst (λ x. member x w.days ≡ true) p d in
          ground (arith, v.start_in_day, v.stop_in_day)
      | inr over ↦
          let (p, q) =
            next_day day today (w.start + k) minute (v.days_in_week day d) t (ground arith)
              (ground (arith, v.start_in_day, v.stop_in_day)) m (rw (← add_assoc) e) in
          let d' : member ((today + 6) % 7) w.days ≡ true =
            subst (λ x. member x w.days ≡ true) p d in
          ground (arith, v.start_in_day, v.stop_in_day)
    ]

abbrev pub AnyCovers : List Window → ℕ → Type 0
AnyCovers [] moment = ⊥
AnyCovers (w ∷ windows) moment = Covers w moment ⊎ AnyCovers windows moment

-- A box is to be up exactly in the minutes of the week that one of its windows covers, for
-- windows as the schedule's parser yields them and any time of the week.
pub is_up_iff :
    (windows : List Window) (today minute : ℕ)
    → All IsWindow windows
    → today < 7
    → minute < 1440
    → (is_up windows today minute ≡ true) ↔ AnyCovers windows (today * 1440 + minute)
unfolding is_up
is_up_iff [] today minute v t m = (λ h. cc, λ a. absurd a)
is_up_iff (w ∷ windows) today minute v t m =
    let rest = is_up_iff windows today minute v.1 t m in
    (
      λ h. elim (Bool-cases (in_window w today minute)) [
        | inl e ↦ inl (in_window-Covers w today minute t m v.0.start_in_day e)
        | inr e ↦ inr (rest.0 (ground (arith, e, h)))
      ],
      λ a. elim a [
        | inl k ↦ ground (arith, Covers-in_window w today minute v.0 t m k)
        | inr k ↦ ground (arith, rest.1 k)
      ],
    )
