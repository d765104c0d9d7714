-- ===== src/Schedule/Occurrence.antt =====
-- `next_occurrence` and its searches `_next_weekly` and `_next_monthly`. The cursor never precedes the
-- anchor where a difference is taken, so differences of dates are plain subtractions.
pub mod Advance
pub mod Weekly
pub mod WeeklySearch
pub mod Monthly
use lenko_bot.Prelude.{
  ℕ, zero, suc, ◌+◌, ◌-◌, ◌*◌, ◌/◌, ◌%◌, List, [], ◌∷◌, Bool, true, false, not, ◌&&◌, ltb, leb,
  ◌==◌, if◌then◌else◌, any, Option, none, some, Outcome, ok, err, ◌>>=◌, ◌>>◌, raise_if,
  value_error,
}
use lenko_bot.Calendar.{Date, LocalTime, is_date, add_days, weekday, to_ordinal, local_ltb}
use lenko_bot.Schedule.Rule.{RecurrenceRule, ScheduleKind, once, daily, weekly, monthly}

-- `rule.weekdays or (anchor_local.weekday(),)`
unfoldable pub weekdays_or : List ℕ → ℕ → List ℕ
weekdays_or [] day = day ∷ []
weekdays_or (d ∷ ds) day = d ∷ ds

-- The Monday of the anchor's week, as an ordinal.
unfoldable pub anchor_week : Date → ℕ
anchor_week anchor = to_ordinal anchor - weekday anchor

-- Whether `_next_weekly` takes this day.
unfoldable pub is_weekly_day : RecurrenceRule → Date → Date → Bool
is_weekly_day rule anchor day =
    leb (anchor_week anchor) (to_ordinal day)
    && ((to_ordinal day - anchor_week anchor) / 7) % rule.interval == 0
    && any (λ d. d == weekday day) (weekdays_or rule.weekdays (weekday anchor))

-- `for day_offset in range(offset, offset + rounds)`
unfoldable pub weekly_search : RecurrenceRule → Date → Date → ℕ → ℕ → Outcome Date
weekly_search rule anchor after zero offset = err value_error
weekly_search rule anchor after (suc rounds) offset = elim (add_days offset after) [
  | err e ↦ err e
  | ok day ↦ elim (is_weekly_day rule anchor day) [
    | true ↦ ok day
    | false ↦ weekly_search rule anchor after rounds (offset + 1)
  ]
]

unfoldable pub next_weekly : RecurrenceRule → LocalTime → LocalTime → Outcome LocalTime
next_weekly rule anchor after = do
  day ← weekly_search rule anchor.date after.date 3660 1
  ok (record { date = day; micros = anchor.micros })

-- `_add_months` and the day of the month.
unfoldable pub month_candidate : Date → ℕ → ℕ → Date
month_candidate anchor monthday step = record {
  year = (anchor.year * 12 + anchor.month - 1 + step) / 12;
  month = (anchor.year * 12 + anchor.month - 1 + step) % 12 + 1;
  day = monthday;
}

-- `rule.monthday or anchor_local.day`
unfoldable pub monthday_or : Option ℕ → ℕ → ℕ
monthday_or none day = day
monthday_or (some d) day = if d == 0 then day else d

-- The rounds of `for _ in range(1200)` that are left; a date that does not exist is skipped.
unfoldable pub monthly_search : RecurrenceRule → Date → ℕ → ℕ → Outcome Date
monthly_search rule anchor zero step = err value_error
monthly_search rule anchor (suc rounds) step =
    let day = month_candidate anchor (monthday_or rule.monthday anchor.day) step in
    elim (is_date day) [
      | true ↦ ok day
      | false ↦ monthly_search rule anchor rounds (step + rule.interval)
    ]

unfoldable pub first_step : RecurrenceRule → Date → Date → ℕ
first_step rule anchor after =
    let elapsed = after.year * 12 + after.month - (anchor.year * 12 + anchor.month) in
    (elapsed / rule.interval + 1) * rule.interval

unfoldable pub next_monthly : RecurrenceRule → LocalTime → LocalTime → Outcome LocalTime
next_monthly rule anchor after = do
  day ← monthly_search rule anchor.date 1200 (first_step rule anchor.date after.date)
  ok (record { date = day; micros = anchor.micros })

-- The candidate that follows a cursor; `none` is the early `return None` of a one-shot rule.
unfoldable pub candidate_after :
    ScheduleKind → RecurrenceRule → LocalTime → LocalTime → Outcome (Option LocalTime)
candidate_after once rule anchor after = ok none
candidate_after daily rule anchor after = do
  day ← add_days rule.interval after.date
  ok (some (record after { date = day }))
candidate_after weekly rule anchor after = do t ← next_weekly rule anchor after; ok (some t)
candidate_after monthly rule anchor after = do t ← next_monthly rule anchor after; ok (some t)

unfoldable pub candidate_of :
    RecurrenceRule → LocalTime → Option LocalTime → Outcome (Option LocalTime)
candidate_of rule anchor none = ok (some anchor)
candidate_of rule anchor (some after) = candidate_after rule.kind rule anchor after

abbrev pub precedes : Option LocalTime → LocalTime → Bool
precedes none anchor = false
precedes (some after) anchor = local_ltb after anchor

-- `rule.count is not None and emitted_count >= rule.count`
abbrev pub is_used_up : Option ℕ → ℕ → Bool
is_used_up none emitted = false
is_used_up (some n) emitted = leb n emitted

-- `None` if the candidate is past `until_local`.
abbrev pub up_to : Option LocalTime → Option LocalTime → Option LocalTime
up_to until none = none
up_to none (some t) = some t
up_to (some limit) (some t) = if local_ltb limit t then none else some t

unfoldable pub next_occurrence :
    RecurrenceRule → LocalTime → Option LocalTime → ℕ → Outcome (Option LocalTime)
next_occurrence rule anchor after emitted = do
  raise_if (precedes after anchor) value_error
  let rest = do candidate ← candidate_of rule anchor after; ok (up_to rule.until_local candidate)
  if is_used_up rule.count emitted then ok none else rest
