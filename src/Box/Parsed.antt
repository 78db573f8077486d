-- ===== src/Box/Parsed.antt =====
-- What the schedule's parser yields (deploy/box/scheduler/schedule.py).
use tuzka_as_a_service.Prelude.{
  ℕ, zero, suc, ◌+◌, ◌-◌, ◌%◌, ◌≤◌, ◌<◌, ◌≡◌, ◌≢◌, true, false, ◌&&◌, not, Option, none, some, List,
  [], ◌∷◌, Text, leb, ◌==◌, member, sadd, arith, All, Bool-cases, inl, inr, if_either, ==_iff,
  is_blank, split, keep, strip, text_in, take, subst, ◌↔◌, partition, text_eq, ◌*◌,
}
use tuzka_as_a_service.Box.Windows.{Window, is_up, minutes_per_day}
use tuzka_as_a_service.Box.Calendar.{IsWindow, AnyCovers, is_up_iff}
use tuzka_as_a_service.Box.Parse.{
  Parsed, error, ok, time_of, parse_time, all_days, days_from, range_of, part_days, days_of_parts,
  parse_days, windows_of, parse_schedule, both_days, unless_none, window_of, entry_window,
  both_windows, unless_no_windows, union, single_of, has_dash, lower, every_day_words, always_words,
  never_words, int_of, find_word, day_numbers, day_number, match_entry, split_entries,
}

-- A predicate of what was parsed, if anything was.
abbrev Yields {ℓ κ} : {A : Type ℓ} → (A → Type κ) → Parsed A → Type κ
Yields P (error e) = Unit
Yields P (ok a) = P a

abbrev InWeek : List ℕ → Type 0
InWeek days = (day : ℕ) → member day days ≡ true → day < 7

-- What a window of a schedule fulfils: its days are days of the week, its times lie in a day, and it
-- lasts at least a minute.
pub record IsParsedWindow (w : Window) : Type 0 where
  pub window : IsWindow w
  pub lasts : w.start ≢ w.stop

abbrev Below : Option ℕ → Type 0
Below none = Unit
Below (some d) = d < 7

sadd-InWeek : (d : ℕ) (days : List ℕ) → d < 7 → InWeek days → InWeek (sadd d days)
sadd-InWeek d days l h day m = elim (Bool-cases (d == day)) [
  | inl e ↦ ground (arith, (==_iff d day).0 e)
  | inr e ↦ h day (ground (arith, m, e))
]

days_from-InWeek : (start span : ℕ) → InWeek (days_from start span)
days_from-InWeek start zero day m = ground (arith, m)
days_from-InWeek start (suc span) day m =
    sadd-InWeek ((start + suc span) % 7) (days_from start span) (omega arith)
      (days_from-InWeek start span) day m

union-InWeek : (more days : List ℕ) → InWeek more → InWeek days → InWeek (union more days)
union-InWeek [] days m h = h
union-InWeek (d ∷ more) days m h =
    sadd-InWeek d (union more days) (m d (ground arith))
      (union-InWeek more days (λ x k. m x (ground (arith, k))) h)

find_word-bound :
    (words : List (Text × ℕ)) (t : Text)
    → All (λ (w : Text × ℕ). w.1 < 7) words
    → Below (find_word words t)
find_word-bound [] t h = tt
find_word-bound ((word, n) ∷ words) t h =
    if_either Below (text_eq word t) _ _ h.0 (find_word-bound words t h.1)

day_number-bound : (t : Text) → Below (day_number t)
unfolding day_number
day_number-bound t = find_word-bound day_numbers (take 3 (lower t)) (ground arith)

range_of-InWeek :
    (first last : Text) (start stop : Option ℕ) → Yields InWeek (range_of first last start stop)
range_of-InWeek first last none stop = tt
range_of-InWeek first last (some start) none = tt
range_of-InWeek first last (some start) (some stop) =
    days_from-InWeek start ((stop + 7 - start) % 7)

single_of-InWeek : (first : Text) (day : Option ℕ) → Below day → Yields InWeek (single_of first day)
single_of-InWeek first none b = tt
single_of-InWeek first (some d) b = λ day m. ground (arith, m, b, ==_iff d day)

all_days-InWeek : InWeek all_days
all_days-InWeek day m = ground (arith, m)

part_days-InWeek : (part : Text) → Yields InWeek (part_days part)
unfolding part_days
part_days-InWeek part =
    let (first, last) = partition 45 part in
    if_either (Yields InWeek) (text_in (lower part) every_day_words) _ _ all_days-InWeek (
      if_either (Yields InWeek) (has_dash part) _ _
        (range_of-InWeek first last (day_number first) (day_number last))
        (single_of-InWeek first (day_number first) (day_number-bound first)))

both_days-InWeek :
    (a b : Parsed (List ℕ)) → Yields InWeek a → Yields InWeek b → Yields InWeek (both_days a b)
both_days-InWeek (error e) b h k = tt
both_days-InWeek (ok days) (error e) h k = tt
both_days-InWeek (ok days) (ok more) h k = union-InWeek days more h k

days_of_parts-InWeek : (parts : List Text) → Yields InWeek (days_of_parts parts)
unfolding days_of_parts
days_of_parts-InWeek [] = λ day m. cc m
days_of_parts-InWeek (part ∷ parts) =
    let rest = days_of_parts-InWeek parts in
    if_either (Yields InWeek) (is_blank part) _ _ rest
      (both_days-InWeek (part_days part) (days_of_parts parts) (part_days-InWeek part) rest)

unless_none-InWeek :
    (token : Text) (a : Parsed (List ℕ)) → Yields InWeek a → Yields InWeek (unless_none token a)
unless_none-InWeek token (error e) h = tt
unless_none-InWeek token (ok []) h = tt
unless_none-InWeek token (ok (d ∷ days)) h = h

parse_days-InWeek : (token : Text) → Yields InWeek (parse_days token)
unfolding parse_days
parse_days-InWeek token =
    let parts = split 44 (keep (λ c. not (c == 32)) token) in
    unless_none-InWeek token (days_of_parts parts) (days_of_parts-InWeek parts)

time_of-bound :
    (token : Text) (hours minutes : Option ℕ) → Yields (λ n. n ≤ 1440) (time_of token hours minutes)
time_of-bound token none minutes = tt
time_of-bound token (some hours) none = tt
time_of-bound token (some hours) (some minutes) =
    elim (Bool-cases (leb (hours * 60 + minutes) 1440 && leb minutes 59)) [
      | inl e ↦ rw e (ground (arith, e))
      | inr e ↦ rw e tt
    ]

parse_time-bound : (token : Text) → Yields (λ n. n ≤ 1440) (parse_time token)
unfolding parse_time
parse_time-bound token =
    time_of-bound token (int_of (partition 58 token).0) (int_of (partition 58 token).1)

window_of-IsParsedWindow :
    (entry : Text) (start stop : Parsed ℕ) (days : Parsed (List ℕ))
    → Yields (λ n. n ≤ 1440) start
    → Yields (λ n. n ≤ 1440) stop
    → Yields InWeek days
    → Yields IsParsedWindow (window_of entry start stop days)
window_of-IsParsedWindow entry (error e) stop days h k d = tt
window_of-IsParsedWindow entry (ok start) (error e) days h k d = tt
window_of-IsParsedWindow entry (ok start) (ok stop) (error e) h k d =
    if_either (Yields IsParsedWindow) (start == stop) _ _ tt tt
window_of-IsParsedWindow entry (ok start) (ok stop) (ok days) h k d =
    elim (Bool-cases (start == stop)) [
      | inl e ↦ rw e tt
      | inr e ↦ rw e (record {
        window = record { days_in_week = d; start_in_day = h; stop_in_day = k };
        lasts = λ q. cc ((==_iff start stop).1 q, e);
      })
    ]

entry_window-IsParsedWindow :
    (entry : Text) (found : Option (Text × Text × Text))
    → Yields IsParsedWindow (entry_window entry found)
entry_window-IsParsedWindow entry none = tt
entry_window-IsParsedWindow entry (some (days, start, stop)) =
    window_of-IsParsedWindow entry (parse_time start) (parse_time stop) (parse_days days)
      (parse_time-bound start) (parse_time-bound stop) (parse_days-InWeek days)

both_windows-IsParsedWindow :
    (a : Parsed Window) (b : Parsed (List Window))
    → Yields IsParsedWindow a
    → Yields (All IsParsedWindow) b
    → Yields (All IsParsedWindow) (both_windows a b)
both_windows-IsParsedWindow (error e) b h k = tt
both_windows-IsParsedWindow (ok w) (error e) h k = tt
both_windows-IsParsedWindow (ok w) (ok more) h k = (h, k)

windows_of-IsParsedWindow : (chunks : List Text) → Yields (All IsParsedWindow) (windows_of chunks)
unfolding windows_of
windows_of-IsParsedWindow [] = tt
windows_of-IsParsedWindow (chunk ∷ chunks) =
    let entry = strip chunk in
    let rest = windows_of-IsParsedWindow chunks in
    if_either (Yields (All IsParsedWindow)) (is_blank entry) _ _ rest (
      both_windows-IsParsedWindow (entry_window entry (match_entry entry)) (windows_of chunks)
        (entry_window-IsParsedWindow entry (match_entry entry)) rest)

unless_no_windows-IsParsedWindow :
    (text : Text) (a : Parsed (List Window))
    → Yields (All IsParsedWindow) a
    → Yields (All IsParsedWindow) (unless_no_windows text a)
unless_no_windows-IsParsedWindow text (error e) h = tt
unless_no_windows-IsParsedWindow text (ok []) h = tt
unless_no_windows-IsParsedWindow text (ok (w ∷ windows)) h = h

always-IsParsedWindow :
    IsParsedWindow (record { days = all_days; start = 0; stop = minutes_per_day })
always-IsParsedWindow = record {
  window = record {
    days_in_week = all_days-InWeek;
    start_in_day = omega arith;
    stop_in_day = omega arith;
  };
  lasts = λ q. ground (arith, q);
}

parse_schedule-Yields : (text : Text) → Yields (All IsParsedWindow) (parse_schedule text)
unfolding parse_schedule
parse_schedule-Yields text =
    let cleaned = strip text in
    if_either (Yields (All IsParsedWindow)) (text_in (lower cleaned) always_words) _ _
      (always-IsParsedWindow, tt)
      (if_either (Yields (All IsParsedWindow)) (text_in (lower cleaned) never_words) _ _ tt (
        unless_no_windows-IsParsedWindow text (windows_of (split_entries false cleaned))
          (windows_of-IsParsedWindow (split_entries false cleaned))))

All-IsWindow : (windows : List Window) → All IsParsedWindow windows → All IsWindow windows
All-IsWindow [] h = tt
All-IsWindow (w ∷ windows) h = (h.0.window, All-IsWindow windows h.1)

-- A schedule that parses has only windows on days of the week, within a day and of at least a minute,
-- so the box is up by it exactly at the minutes of the week that lie in one of its windows, those that
-- wrap past midnight or past Sunday included.
pub parse_schedule-IsParsedWindow :
    (text : Text) (windows : List Window)
    → parse_schedule text ≡ ok windows
    → All IsParsedWindow windows
      × ((today minute : ℕ)
          → today < 7
          → minute < 1440
          → (is_up windows today minute ≡ true) ↔ AnyCovers windows (today * 1440 + minute))
parse_schedule-IsParsedWindow text windows q =
    let yields : Yields (All IsParsedWindow) (ok windows) =
      subst (Yields (All IsParsedWindow)) q (parse_schedule-Yields text) in
    (yields, λ today minute t m. is_up_iff windows today minute (All-IsWindow windows yields) t m)
