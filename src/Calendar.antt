-- ===== src/Calendar.antt =====
-- What src/lenkobot/reminder_schedule.py uses of Python's `datetime`: the proleptic Gregorian date, its
-- ordinal and weekday, `date(y, m, d)`, `date + timedelta(days=n)`, and the order of naive datetimes.
pub mod Ordinal
pub mod Order
use lenko_bot.Prelude.{
  ℕ, zero, suc, ◌+◌, ◌-◌, ◌*◌, ◌/◌, ◌%◌, Bool, true, false, not, ◌&&◌, ◌||◌, ltb, leb, ◌==◌,
  if◌then◌else◌, Outcome, ok, err, overflow_error, value_error,
}

pub record Date : Type 0 where
  pub year : ℕ
  pub month : ℕ
  pub day : ℕ

-- A naive datetime: a date and the microseconds since midnight.
pub record LocalTime : Type 0 where
  pub date : Date
  pub micros : ℕ

unfoldable pub is_leap : ℕ → Bool
is_leap y = y % 4 == 0 && (not (y % 100 == 0) || y % 400 == 0)

unfoldable pub days_in_month : ℕ → ℕ → ℕ
unfolding is_leap
days_in_month y m =
    if m == 2
    then (if is_leap y then 29 else 28)
    else (if m == 4 || m == 6 || m == 9 || m == 11 then 30 else 31)

-- Days before January 1 of the year, for years from 1 on.
unfoldable pub days_before_year : ℕ → ℕ
days_before_year y = (y - 1) * 365 + (y - 1) / 4 - (y - 1) / 100 + (y - 1) / 400

-- Days before the first of the month, for months from 1 on.
unfoldable pub days_before_month : ℕ → ℕ → ℕ
days_before_month y zero = 0
days_before_month y (suc zero) = 0
days_before_month y (suc (suc k)) = days_before_month y (suc k) + days_in_month y (suc k)

-- `date.toordinal`: January 1 of year 1 is 1.
unfoldable pub to_ordinal : Date → ℕ
to_ordinal d = days_before_year d.year + days_before_month d.year d.month + d.day

-- `date.weekday`: Monday is 0.
unfoldable pub weekday : Date → ℕ
weekday d = (to_ordinal d + 6) % 7

-- Whether `date(year, month, day)` is accepted.
unfoldable pub is_date : Date → Bool
is_date d =
    leb 1 d.year
    && leb d.year 9999
    && leb 1 d.month
    && leb d.month 12
    && leb 1 d.day
    && leb d.day (days_in_month d.year d.month)

unfoldable pub next_day : Date → Date
next_day d =
    if ltb d.day (days_in_month d.year d.month)
    then record d { day = d.day + 1 }
    else if ltb d.month 12
    then record { year = d.year; month = d.month + 1; day = 1 }
    else record { year = d.year + 1; month = 1; day = 1 }

unfoldable pub days_after : ℕ → Date → Date
unfolding next_day
days_after zero d = d
days_after (suc n) d = next_day (days_after n d)

-- `d + timedelta(days=n)`, which raises OverflowError past December 31, 9999.
unfoldable pub add_days : ℕ → Date → Outcome Date
unfolding days_after
add_days n d = let e = days_after n d in if leb e.year 9999 then ok e else err overflow_error

-- Python compares dates and datetimes field by field.
unfoldable pub date_ltb : Date → Date → Bool
date_ltb a b =
    if ltb a.year b.year
    then true
    else if ltb b.year a.year
    then false
    else if ltb a.month b.month
    then true
    else if ltb b.month a.month
    then false
    else ltb a.day b.day

unfoldable pub date_eq : Date → Date → Bool
date_eq a b = a.year == b.year && a.month == b.month && a.day == b.day

unfoldable pub local_ltb : LocalTime → LocalTime → Bool
unfolding date_ltb
local_ltb a b =
    if date_ltb a.date b.date
    then true
    else if date_ltb b.date a.date
    then false
    else ltb a.micros b.micros

unfoldable pub local_eq : LocalTime → LocalTime → Bool
unfolding date_eq
local_eq a b = date_eq a.date b.date && a.micros == b.micros
