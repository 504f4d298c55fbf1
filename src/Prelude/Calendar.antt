-- ===== src/Prelude/Calendar.antt =====
-- strptime("%Y-%m-%d %H:%M:%S") and timegm of the GNU C library.
use Prim.Native.Nat.{ℕ, zero, suc, ◌+◌, ◌-◌, ◌*◌, ◌/◌, ◌%◌}
use mathlib.Core.Bool.{not, ◌&&◌, ◌||◌}
use mathlib.Core.Option.{Option, none, some}
use mathlib.Core.List.{[], ◌∷◌}
use linux_process_analyzer.Prelude.Tests.{ltb, leb, ◌==◌, if◌then◌else◌}
use linux_process_analyzer.Prelude.Int.{ℤ, sub_ℕ}
use linux_process_analyzer.Prelude.Cstr.{Bytes, is_digit, skip_space}

-- Up to `width` further digits, while the number can stay below `to`.
unfoldable pub more_digits : ℕ → ℕ → ℕ → Bytes → ℕ × Bytes
more_digits to zero value s = (value, s)
more_digits to (suc width) value [] = (value, [])
more_digits to (suc width) value (c ∷ s) =
    let next = more_digits to width (value * 10 + (c - 48)) s in
    if leb (value * 10) to && is_digit c then next else (value, c ∷ s)

unfoldable pub skip_blanks : Bytes → Bytes
skip_blanks [] = []
skip_blanks (c ∷ s) = let rest = skip_blanks s in if c == b' ' then rest else c ∷ s

module _ {A : Type 0} where
  unfoldable pub in_range : ℕ → ℕ → (ℕ → Bytes → Option A) → ℕ × Bytes → Option A
  in_range from to k (value, s) = if leb from value && leb value to then k value s else none

  unfoldable pub first_digit : ℕ → ℕ → ℕ → (ℕ → Bytes → Option A) → Bytes → Option A
  unfolding more_digits in_range
  first_digit from to width k [] = none
  first_digit from to width k (c ∷ s) =
      if is_digit c then in_range from to k (more_digits to (width - 1) (c - 48) s) else none

  -- A number of the format and, behind it, a character; `k` goes on with the rest.
  unfoldable pub number : ℕ → ℕ → ℕ → (ℕ → Bytes → Option A) → Bytes → Option A
  unfolding first_digit skip_blanks
  number from to width k s = first_digit from to width k (skip_blanks s)

  unfoldable pub literal : ℕ → (Bytes → Option A) → Bytes → Option A
  literal c k [] = none
  literal c k (x ∷ s) = if x == c then k s else none

abbrev leap_day : ℕ → ℕ → ℕ
leap_day year month =
    if ltb 2 month && (year % 4 == 0 && (not (year % 100 == 0) || year % 400 == 0)) then 1 else 0

abbrev days_before_month : ℕ → ℕ
days_before_month month =
    if month == 1
    then 0
    else if month == 2
    then 31
    else if month == 3
    then 59
    else if month == 4
    then 90
    else if month == 5
    then 120
    else if month == 6
    then 151
    else if month == 7
    then 181
    else if month == 8
    then 212
    else if month == 9
    then 243
    else if month == 10
    then 273
    else if month == 11
    then 304
    else 334

-- The days from the first of January of the year 0 on.
abbrev days_before_year : ℕ → ℕ
days_before_year year = 365 * year + (year + 3) / 4 + (year + 399) / 400 - (year + 99) / 100

-- The seconds from the epoch to a time of the calendar in UTC; the months and days count from 1.
unfoldable pub timegm : ℕ → ℕ → ℕ → ℕ → ℕ → ℕ → ℤ
timegm year month day hour minute second =
    let days = days_before_year year + days_before_month month + leap_day year month + (day - 1) in
    sub_ℕ (((days * 24 + hour) * 60 + minute) * 60 + second) (719528 * 86400)

-- The rest of the format behind each of its numbers.
abbrev pub after_second : ℕ → ℕ → ℕ → ℕ → ℕ → ℕ → Bytes → Option ℤ
after_second year month day hour minute second s = some (timegm year month day hour minute second)

abbrev pub after_minute : ℕ → ℕ → ℕ → ℕ → ℕ → Bytes → Option ℤ
after_minute year month day hour minute s =
    literal b':' (number 0 61 2 (after_second year month day hour minute)) s

abbrev pub after_hour : ℕ → ℕ → ℕ → ℕ → Bytes → Option ℤ
after_hour year month day hour s = literal b':' (number 0 59 2 (after_minute year month day hour)) s

abbrev pub after_day : ℕ → ℕ → ℕ → Bytes → Option ℤ
after_day year month day s = number 0 23 2 (after_hour year month day) (skip_space s)

abbrev pub after_month : ℕ → ℕ → Bytes → Option ℤ
after_month year month s = literal b'-' (number 1 31 2 (after_day year month)) s

abbrev pub after_year : ℕ → Bytes → Option ℤ
after_year year s = literal b'-' (number 1 12 2 (after_month year)) s

-- The seconds of the time that the text begins with, if it begins with one.
unfoldable pub strptime_timegm : Bytes → Option ℤ
strptime_timegm s = number 0 9999 4 after_year s
