-- ===== src/Schedule/Tests.antt =====
-- The schedule's theorems at concrete rules and times.
use lenko_bot.Prelude.{
  ℕ, ◌+◌, ◌≡◌, refl, ◌↔◌, ◌⊎◌, [], ◌∷◌, Bool, true, false, ◌==◌, Option, none, some, ok, arith, ◌<◌,
  ◌/◌,
}
use lenko_bot.Calendar.{
  Date, LocalTime, is_date, is_leap, days_in_month, next_day, days_after, add_days, local_ltb,
  local_eq, date_ltb, date_eq,
}
use lenko_bot.Calendar.Ordinal.{IsDate}
use lenko_bot.Text.{Text, is_blank, strip, is_empty, drop_while, is_space}
use lenko_bot.Schedule.Rule.{RecurrenceRule, ScheduleKind}
use lenko_bot.Schedule.Zone.{
  Zone, ZoneDatabase, load_zone, resolve_in_zone, add_candidate, only_candidate, resolve_local_time,
}
use lenko_bot.Schedule.Zone.Laws.{Shows, resolve_in_zone-only}
use lenko_bot.Schedule.Quiet.{
  quiet_hours_available_at, quiet_available, check_quiet_hours, leave_quiet_hours, in_quiet_hours,
  minute_of_day, quiet_end_date,
}
use lenko_bot.Schedule.Quiet.Laws.{IsQuiet, IsNextAt, quiet_hours_available_at-awake}
use lenko_bot.Schedule.Occurrence.{
  next_occurrence, candidate_of, candidate_after, next_weekly, next_monthly, monthly_search,
  first_step, month_candidate, monthday_or,
}
use lenko_bot.Schedule.Occurrence.Advance.{next_occurrence-later}
use lenko_bot.Schedule.Occurrence.WeeklySearch.{next_weekly-IsNextWeekly, IsNextWeekly}
use lenko_bot.Schedule.Occurrence.Monthly.{IsNextMonthly, next_monthly-IsNextMonthly}

-- Monday, January 1, 2024, at one o'clock, and the 31st.
abbrev monday : LocalTime
monday = record { date = record { year = 2024; month = 1; day = 1 }; micros = 3_600_000_000 }

abbrev last_day : LocalTime
last_day = record { date = record { year = 2024; month = 1; day = 31 }; micros = 0 }

-- Every second week on Tuesday and Thursday, given out of order.
abbrev biweekly : RecurrenceRule
biweekly = record {
  kind = ScheduleKind.weekly;
  interval = 2;
  weekdays = 3 ∷ 1 ∷ 3 ∷ [];
  monthday = none;
  count = some 2;
  until_local = none;
}

abbrev sorted_rule : RecurrenceRule
sorted_rule = record biweekly { weekdays = 1 ∷ 3 ∷ [] }

abbrev daily_rule : RecurrenceRule
daily_rule = record {
  kind = ScheduleKind.daily;
  interval = 3;
  weekdays = [];
  monthday = none;
  count = some 2;
  until_local = none;
}

abbrev monthly_rule : RecurrenceRule
monthly_rule = record {
  kind = ScheduleKind.monthly;
  interval = 1;
  weekdays = [];
  monthday = none;
  count = none;
  until_local = none;
}

monday-IsDate : IsDate monday.date
unfolding days_in_month
monday-IsDate = record {
  year_pos = omega arith;
  month_pos = omega arith;
  month_le = omega arith;
  day_pos = omega arith;
  day_le = omega arith;
}

next_occurrence-later_example :
    (local_ltb monday
        (record { date = record { year = 2024; month = 1; day = 4 }; micros = 3_600_000_000 })
      ≡ true)
    × ((◌≡◌ {A = Option LocalTime} none none)
        ⊎ ((limit : LocalTime) × (◌≡◌ {A = Option LocalTime} none (some limit))
            × (local_ltb limit (record {
              date = record { year = 2024; month = 1; day = 4 };
              micros = 3_600_000_000;
            })
                ≡ false)))
    × ((daily_rule.count ≡ none) ⊎ ((n : ℕ) × (daily_rule.count ≡ some n) × (1 < n)))
unfolding next_occurrence candidate_of candidate_after add_days days_after next_day days_in_month
    is_leap local_ltb date_ltb
next_occurrence-later_example =
    next_occurrence-later daily_rule monday monday
      (record { date = record { year = 2024; month = 1; day = 4 }; micros = 3_600_000_000 }) 1
      (omega arith) monday-IsDate monday-IsDate refl

next_weekly-IsNextWeekly_example :
    (day : Date) × (next_weekly sorted_rule monday monday
      ≡ ok (record { date = day; micros = 3_600_000_000 }))
    × IsNextWeekly sorted_rule monday.date monday.date day
next_weekly-IsNextWeekly_example =
    next_weekly-IsNextWeekly sorted_rule monday monday monday-IsDate monday-IsDate (omega arith)
      (omega arith) (omega arith, (omega arith, tt)) (omega arith)
      (unfold days_after in
        unfold next_day in unfold days_in_month in unfold is_leap in omega arith)

next_monthly-IsNextMonthly_example :
    (◌≡◌ {A = ℕ} 0 0)
    × IsNextMonthly monthly_rule last_day.date last_day.date
        (record { year = 2024; month = 3; day = 31 })
unfolding next_monthly monthly_search first_step month_candidate monthday_or is_date days_in_month
    is_leap
next_monthly-IsNextMonthly_example =
    next_monthly-IsNextMonthly monthly_rule last_day last_day
      (record { date = record { year = 2024; month = 3; day = 31 }; micros = 0 }) (omega arith)
      (omega arith) (omega arith) refl

-- A zone of one day, at UTC, and one in which a wall time of the first hour is shown twice.
abbrev new_year : Date
new_year = record { year = 2024; month = 1; day = 1 }

abbrev utc_day : Zone
utc_day = record {
  to_utc = λ fold t. t.micros;
  from_utc = λ u. record { date = new_year; micros = u };
}

abbrev shift : Bool → ℕ → ℕ
shift false n = n
shift true n = n + 10

abbrev back : Bool → ℕ → ℕ
back true n = 5
back false n = n

abbrev folded_day : Zone
folded_day = record {
  to_utc = λ fold t. shift fold t.micros;
  from_utc = λ u. record { date = new_year; micros = back (u == 15) u };
}

abbrev at : ℕ → LocalTime
at n = record { date = new_year; micros = n }

resolve_in_zone-only_example : Shows utc_day (at 7) 7 ↔ (◌≡◌ {A = ℕ} 7 7)
unfolding resolve_in_zone add_candidate only_candidate local_eq date_eq
resolve_in_zone-only_example = resolve_in_zone-only utc_day (at 7) 7 7 refl

abbrev one_zone : ZoneDatabase
one_zone name = some utc_day

-- "UTC"
abbrev utc_name : Text
utc_name = 85 ∷ 84 ∷ 67 ∷ []

-- Quiet hours from ten in the evening to two o'clock, and a reminder at one.
quiet_hours_available_at-awake_example :
    ((IsQuiet 1320 120 ((utc_day.from_utc 3_600_000_000).micros / 60_000_000)
        × IsNextAt 120 (utc_day.from_utc 3_600_000_000) (utc_day.from_utc 7_200_000_000))
      ⊎ (¬ (IsQuiet 1320 120 ((utc_day.from_utc 3_600_000_000).micros / 60_000_000))
          × (◌≡◌ {A = ℕ} 7_200_000_000 3_600_000_000)))
    × ¬ (IsQuiet 1320 120 ((utc_day.from_utc 7_200_000_000).micros / 60_000_000))
unfolding load_zone is_blank is_empty strip drop_while is_space quiet_hours_available_at
    quiet_available check_quiet_hours leave_quiet_hours in_quiet_hours minute_of_day quiet_end_date
    resolve_local_time resolve_in_zone add_candidate only_candidate local_eq date_eq
quiet_hours_available_at-awake_example =
    quiet_hours_available_at-awake one_zone utc_day utc_name 3_600_000_000 1320 120 7_200_000_000
      refl (omega arith) refl
