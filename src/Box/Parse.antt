-- ===== src/Box/Parse.antt =====
-- The parser of OCR_UP_SCHEDULE: `parse_time`, `parse_days` and `parse_schedule` of
-- deploy/box/scheduler/schedule.py with its two patterns. Digits are ASCII ones, and the letters that
-- `lower` changes too: no other character's lower case is one of a word that the parser knows.
use tuzka_as_a_service.Prelude.{
  ℕ, zero, suc, ◌+◌, ◌-◌, ◌*◌, ◌%◌, Bool, false, ◌&&◌, ◌||◌, not, Option, none, some, List, [], ◌∷◌,
  Text, codes, leb, ◌==◌, if◌then◌else◌, member, sadd, map, keep, all, take, text_eq, text_in,
  split, partition, is_space, lstrip, rstrip, strip, is_blank,
}
use tuzka_as_a_service.Box.Windows.{Window, minutes_per_day}

pub data ScheduleError : Type 0 where
  bad_time time_out_of_range unknown_day no_days bad_entry empty_window no_windows :
      Text → ScheduleError

-- A ScheduleError, or what was parsed.
pub data Parsed {ℓ} (A : Type ℓ) : Type ℓ where
  error : ScheduleError → Parsed A
  ok : A → Parsed A

abbrev is_digit : ℕ → Bool
is_digit c = leb 48 c && leb c 57

abbrev is_letter : ℕ → Bool
is_letter c = (leb 65 c && leb c 90) || (leb 97 c && leb c 122)

abbrev pub lower : Text → Text
lower = map (λ c. if leb 65 c && leb c 90 then c + 32 else c)

abbrev digits_value : ℕ → Text → ℕ
digits_value n [] = n
digits_value n (c ∷ t) = digits_value (n * 10 + (c - 48)) t

-- `int(t)` of a text of digits; `none` is its ValueError.
unfoldable pub int_of : Text → Option ℕ
int_of t = if not (is_blank t) && all is_digit t then some (digits_value 0 t) else none

abbrev pub time_of : Text → Option ℕ → Option ℕ → Parsed ℕ
time_of token (some hours) (some minutes) =
    let total = hours * 60 + minutes in
    if leb total minutes_per_day && leb minutes 59
    then ok total
    else error (time_out_of_range token)
time_of token none minutes = error (bad_time token)
time_of token (some hours) none = error (bad_time token)

-- `parse_time`.
unfoldable pub parse_time : Text → Parsed ℕ
unfolding int_of partition
parse_time token =
    let (hours, minutes) = partition 58 token in time_of token (int_of hours) (int_of minutes)

abbrev pub find_word : List (Text × ℕ) → Text → Option ℕ
find_word [] t = none
find_word ((word, n) ∷ words) t =
    let rest = find_word words t in if text_eq word t then some n else rest

-- `_DAY_NUMBERS`.
abbrev pub day_numbers : List (Text × ℕ)
day_numbers =
    (codes "mon", 0)
    ∷ (codes "tue", 1)
    ∷ (codes "wed", 2)
    ∷ (codes "thu", 3)
    ∷ (codes "fri", 4)
    ∷ (codes "sat", 5)
    ∷ (codes "sun", 6)
    ∷ []

-- `_DAY_NUMBERS.get(t.lower()[:3])`.
unfoldable pub day_number : Text → Option ℕ
unfolding text_eq
day_number t = find_word day_numbers (take 3 (lower t))

abbrev pub all_days : List ℕ
all_days = 0 ∷ 1 ∷ 2 ∷ 3 ∷ 4 ∷ 5 ∷ 6 ∷ []

-- The days `(start + offset) % 7` for the offsets up to a span.
abbrev pub days_from : ℕ → ℕ → List ℕ
days_from start zero = start % 7 ∷ []
days_from start (suc span) = sadd ((start + suc span) % 7) (days_from start span)

abbrev pub union : List ℕ → List ℕ → List ℕ
union [] days = days
union (d ∷ more) days = sadd d (union more days)

abbrev pub range_of : Text → Text → Option ℕ → Option ℕ → Parsed (List ℕ)
range_of first last none stop = error (unknown_day first)
range_of first last (some start) none = error (unknown_day last)
range_of first last (some start) (some stop) = ok (days_from start ((stop + 7 - start) % 7))

abbrev pub has_dash : Text → Bool
has_dash t = member 45 t

abbrev pub single_of : Text → Option ℕ → Parsed (List ℕ)
single_of part none = error (unknown_day part)
single_of part (some day) = ok (day ∷ [])

abbrev pub every_day_words : List Text
every_day_words = codes "daily" ∷ codes "everyday" ∷ codes "all" ∷ []

abbrev pub always_words : List Text
always_words = codes "" ∷ codes "always" ∷ codes "all" ∷ codes "24/7" ∷ []

abbrev pub never_words : List Text
never_words = codes "never" ∷ codes "off" ∷ codes "none" ∷ []

-- The days of one part of a list that is not empty.
unfoldable pub part_days : Text → Parsed (List ℕ)
unfolding text_in day_number partition
part_days part =
    let (first, last) = partition 45 part in
    if text_in (lower part) every_day_words
    then ok all_days
    else (if has_dash part
        then range_of first last (day_number first) (day_number last)
        else single_of first (day_number first))

abbrev pub both_days : Parsed (List ℕ) → Parsed (List ℕ) → Parsed (List ℕ)
both_days (error e) more = error e
both_days (ok days) (error e) = error e
both_days (ok days) (ok more) = ok (union days more)

-- The loop of `parse_days`, whose first part that is no day ends it.
unfoldable pub days_of_parts : List Text → Parsed (List ℕ)
unfolding part_days
days_of_parts [] = ok []
days_of_parts (part ∷ parts) =
    let rest = days_of_parts parts in
    if is_blank part then rest else both_days (part_days part) rest

abbrev pub unless_none : Text → Parsed (List ℕ) → Parsed (List ℕ)
unless_none token (error e) = error e
unless_none token (ok []) = error (no_days token)
unless_none token (ok (d ∷ days)) = ok (d ∷ days)

-- `parse_days`.
unfoldable pub parse_days : Text → Parsed (List ℕ)
unfolding split days_of_parts
parse_days token = unless_none token (days_of_parts (split 44 (keep (λ c. not (c == 32)) token)))

abbrev onto_first : ℕ → List Text → List Text
onto_first c [] = (c ∷ []) ∷ []
onto_first c (t ∷ ts) = (c ∷ t) ∷ ts

abbrev after_digit : Bool → ℕ → Bool
after_digit seen c = if is_space c then seen else is_digit c

-- `_ENTRY_SPLIT.split`, with whether the last character that is no space was a digit. The spaces before
-- a comma that separates stay; the entries are stripped.
unfoldable pub split_entries : Bool → Text → List Text
split_entries seen [] = [] ∷ []
split_entries seen (c ∷ t) =
    let rest = split_entries (after_digit seen c) t in
    if c == 59 || (c == 44 && seen) then [] ∷ rest else onto_first c rest

abbrev match_long : ℕ → ℕ → ℕ → ℕ → Text → Option (Text × Text)
match_long a b c d [] = none
match_long a b c d (e ∷ t) =
    if is_digit a && is_digit b && c == 58 && is_digit d && is_digit e
    then some (a ∷ b ∷ c ∷ d ∷ e ∷ [], t)
    else none

-- `\d{1,2}:\d{2}` at the start of a text: the token and the rest.
unfoldable pub match_time : Text → Option (Text × Text)
match_time (a ∷ b ∷ c ∷ d ∷ t) =
    if is_digit a && b == 58 && is_digit c && is_digit d
    then some (a ∷ b ∷ c ∷ d ∷ [], t)
    else match_long a b c d t
match_time _ = none

abbrev before_digit : Text → Text
before_digit [] = []
before_digit (c ∷ t) = let rest = before_digit t in if is_digit c then [] else c ∷ rest

abbrev from_digit : Text → Text
from_digit [] = []
from_digit (c ∷ t) = let rest = from_digit t in if is_digit c then c ∷ t else rest

abbrev is_day_char : ℕ → Bool
is_day_char c = is_letter c || c == 44 || c == 45 || c == 32

abbrev ends_blank : Text → Bool
ends_blank [] = false
ends_blank (c ∷ []) = is_space c
ends_blank (c ∷ d ∷ t) = ends_blank (d ∷ t)

abbrev second_time : Text → Text → Option (Text × Text) → Option (Text × Text × Text)
second_time days start (some (stop, [])) = some (days, start, stop)
second_time days start (some (stop, c ∷ t)) = none
second_time days start none = none

abbrev dash_and_time : Text → Text → Text → Option (Text × Text × Text)
dash_and_time days start [] = none
dash_and_time days start (c ∷ t) =
    if c == 45 then second_time days start (match_time (lstrip t)) else none

abbrev first_time : Text → Option (Text × Text) → Option (Text × Text × Text)
first_time days none = none
first_time days (some (start, t)) = dash_and_time days start (lstrip t)

-- `_ENTRY_RE.match` of a stripped entry. The days hold no digit and the times start with one.
unfoldable pub match_entry : Text → Option (Text × Text × Text)
unfolding match_time lstrip rstrip
match_entry entry =
    let head = before_digit entry in
    let days = rstrip head in
    if not (is_blank days) && all is_day_char days && ends_blank head
    then first_time days (match_time (from_digit entry))
    else none

abbrev pub window_of : Text → Parsed ℕ → Parsed ℕ → Parsed (List ℕ) → Parsed Window
window_of entry (error e) stop days = error e
window_of entry (ok start) (error e) days = error e
window_of entry (ok start) (ok stop) days =
    if start == stop then error (empty_window entry) else (elim days [
      | error e ↦ error e
      | ok ds ↦ ok (record { days = ds; start = start; stop = stop })
    ])

abbrev pub entry_window : Text → Option (Text × Text × Text) → Parsed Window
entry_window entry none = error (bad_entry entry)
entry_window entry (some (days, start, stop)) =
    window_of entry (parse_time start) (parse_time stop) (parse_days days)

abbrev pub both_windows : Parsed Window → Parsed (List Window) → Parsed (List Window)
both_windows (error e) more = error e
both_windows (ok w) (error e) = error e
both_windows (ok w) (ok more) = ok (w ∷ more)

-- The loop of `parse_schedule` over the entries.
unfoldable pub windows_of : List Text → Parsed (List Window)
unfolding match_entry parse_time parse_days lstrip rstrip
windows_of [] = ok []
windows_of (chunk ∷ chunks) =
    let entry = strip chunk in
    let rest = windows_of chunks in
    if is_blank entry then rest else both_windows (entry_window entry (match_entry entry)) rest

abbrev pub unless_no_windows : Text → Parsed (List Window) → Parsed (List Window)
unless_no_windows text (error e) = error e
unless_no_windows text (ok []) = error (no_windows text)
unless_no_windows text (ok (w ∷ windows)) = ok (w ∷ windows)

-- `parse_schedule`.
unfoldable pub parse_schedule : Text → Parsed (List Window)
unfolding lstrip rstrip text_in split_entries windows_of
parse_schedule text =
    let cleaned = strip text in
    if text_in (lower cleaned) always_words
    then ok (record { days = all_days; start = 0; stop = minutes_per_day } ∷ [])
    else (if text_in (lower cleaned) never_words
        then ok []
        else unless_no_windows text (windows_of (split_entries false cleaned)))
