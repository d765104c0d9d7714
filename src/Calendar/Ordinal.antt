-- ===== src/Calendar/Ordinal.antt =====
-- The ordinal of a date grows by one from each day to the next, through months, years and leap days.
use lenko_bot.Prelude.{
  Bool-cases, ltb, inl, inr, ℕ, zero, suc, ◌+◌, ◌≤◌, ◌<◌, ◌≡◌, refl, true, arith, if◌then◌else◌,
}
use native.Mathlib.Numerals.{add-one}
use lenko_bot.Calendar.{
  Date, is_leap, days_in_month, days_before_year, days_before_month, to_ordinal, is_date, next_day,
  days_after, weekday,
}

-- A date of the calendar, of any year from 1 on.
pub record IsDate (d : Date) : Type 0 where
  pub year_pos : 1 ≤ d.year
  pub month_pos : 1 ≤ d.month
  pub month_le : d.month ≤ 12
  pub day_pos : 1 ≤ d.day
  pub day_le : d.day ≤ days_in_month d.year d.month

pub is_date-IsDate : (d : Date) → is_date d ≡ true → IsDate d × (d.year ≤ 9999)
unfolding is_date
is_date-IsDate d h = ground arith

pub days_in_month_bounds : (y m : ℕ) → (28 ≤ days_in_month y m) × (days_in_month y m ≤ 31)
unfolding days_in_month
days_in_month_bounds y m = ground arith

pub next_day-IsDate : (d : Date) → IsDate d → IsDate (next_day d)
unfolding next_day
next_day-IsDate d v =
    ground (arith, days_in_month_bounds d.year (d.month + 1), days_in_month_bounds (d.year + 1) 1)

days_before_month-suc :
    (y m : ℕ) → 1 ≤ m → days_before_month y (m + 1) ≡ days_before_month y m + days_in_month y m
unfolding days_before_month
days_before_month-suc y zero h = absurd (omega arith)
days_before_month-suc y (suc k) h = rw add-one

year_length : ℕ → ℕ
year_length y = if is_leap y then 366 else 365

days_before_year-suc :
    (y : ℕ) → 1 ≤ y → days_before_year (y + 1) ≡ days_before_year y + year_length y
unfolding days_before_year year_length is_leap
days_before_year-suc y h = ground arith

december : (y : ℕ) → days_before_month y 12 + days_in_month y 12 ≡ year_length y
unfolding days_before_month days_in_month year_length
december y = ground arith

january : (y : ℕ) → days_before_month y 1 ≡ 0
unfolding days_before_month
january y = refl

year_end :
    (y m k : ℕ)
    → 1 ≤ y
    → m ≡ 12
    → k ≡ days_in_month y m
    → days_before_year (y + 1) + days_before_month (y + 1) 1 + 1
      ≡ days_before_year y + days_before_month y m + k + 1
year_end y m k h e f =
    rw (f, e) (omega (arith, december y, days_before_year-suc y, january (y + 1)))

pub to_ordinal-next_day : (d : Date) → IsDate d → to_ordinal (next_day d) ≡ to_ordinal d + 1
unfolding to_ordinal next_day
to_ordinal-next_day d v = elim (Bool-cases (ltb d.day (days_in_month d.year d.month))) [
  | inl e ↦ rw e (omega arith)
  | inr e ↦ elim (Bool-cases (ltb d.month 12)) [
    | inl f ↦ rw (e, f) (ground (arith, days_before_month-suc d.year d.month))
    | inr f ↦ rw (e, f) (year_end d.year d.month d.day v.year_pos (ground arith) (ground arith))
  ]
]

pub days_after-IsDate : (n : ℕ) (d : Date) → IsDate d → IsDate (days_after n d)
unfolding days_after
days_after-IsDate zero d v = v
days_after-IsDate (suc n) d v = next_day-IsDate (days_after n d) (days_after-IsDate n d v)

-- Adding days to a date adds them to its ordinal.
pub to_ordinal-days_after :
    (n : ℕ) (d : Date) → IsDate d → to_ordinal (days_after n d) ≡ to_ordinal d + n
unfolding days_after
to_ordinal-days_after zero d v = omega arith
to_ordinal-days_after (suc n) d v = omega (
  arith,
  to_ordinal-next_day (days_after n d) (days_after-IsDate n d v),
  to_ordinal-days_after n d v,
)

pub to_ordinal_pos : (d : Date) → IsDate d → 1 ≤ to_ordinal d
unfolding to_ordinal
to_ordinal_pos d v = omega (arith, v.day_pos)

pub weekday-lt : (d : Date) → weekday d < 7
unfolding weekday
weekday-lt d = omega arith
