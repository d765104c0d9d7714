-- ===== src/Schedule/Occurrence/WeeklySearch.antt =====
-- `_next_weekly` against the days that a weekly rule describes.
use native.Mathlib.Decide.{dec_lt}
use lenko_bot.Prelude.{
  ap, Bool, ℕ, zero, suc, ◌+◌, ◌-◌, ◌*◌, ◌/◌, ◌%◌, ◌≤◌, ◌<◌, ◌≡◌, refl, subst, true, false, inl,
  inr, arith, any, All, ok, Bool-cases, leb, ◌==◌,
}
use lenko_bot.Calendar.{Date, LocalTime, days_after, add_days, weekday, to_ordinal}
use lenko_bot.Calendar.Ordinal.{IsDate, weekday-lt, to_ordinal-days_after}
use lenko_bot.Calendar.Order.{year-days_after}
use lenko_bot.Schedule.Rule.{RecurrenceRule}
use lenko_bot.Schedule.Occurrence.{
  is_weekly_day, weekly_search, next_weekly, anchor_week, weekdays_or,
}
use lenko_bot.Schedule.Occurrence.Weekly.{
  IsFirst, weekly_search-IsFirst, weekly_day_exists, multiple-mod, anchor_week_bounds,
  is_weekly_day_of,
}

-- A day on one of the rule's weekdays, a whole number of intervals of weeks after the anchor's week.
pub record IsWeeklyDay (rule : RecurrenceRule) (anchor day : Date) : Type 0 where
  pub periods : ℕ
  pub on_time : to_ordinal day ≡ anchor_week anchor + 7 * (periods * rule.interval) + weekday day
  pub listed : any (λ d. d == weekday day) (weekdays_or rule.weekdays (weekday anchor)) ≡ true

-- The first such day after the cursor.
pub record IsNextWeekly (rule : RecurrenceRule) (anchor after day : Date) : Type 0 where
  pub later : to_ordinal after < to_ordinal day
  pub is_weekly : IsWeeklyDay rule anchor day
  pub earliest :
      (m : ℕ)
      → 1 ≤ m
      → to_ordinal after + m < to_ordinal day
      → ¬ IsWeeklyDay rule anchor (days_after m after)

add_days-ok : (n : ℕ) (d : Date) → (days_after n d).year ≤ 9999 → add_days n d ≡ ok (days_after n d)
unfolding add_days
add_days-ok n d h = let p : leb (days_after n d).year 9999 ≡ true = ground arith in rw p

apart : (f : ℕ → Bool) (m n : ℕ) → m ≤ n → f m ≡ false → f n ≡ true → m + 1 ≤ n
apart f m n h p q = elim (dec_lt m n) [
  | yes l ↦ omega arith
  | no g ↦ let e : m ≡ n = omega arith in cc (ap f e)
]

-- The parts of the test that `_next_weekly` makes.
taken_parts :
    (rule : RecurrenceRule) (anchor day : Date)
    → is_weekly_day rule anchor day ≡ true
    → (anchor_week anchor ≤ to_ordinal day)
      × (((to_ordinal day - anchor_week anchor) / 7) % rule.interval ≡ 0)
      × (any (λ d. d == weekday day) (weekdays_or rule.weekdays (weekday anchor)) ≡ true)
unfolding is_weekly_day
taken_parts rule anchor day h = ground arith

on_schedule :
    (a o w i : ℕ)
    → a ≤ o
    → (a + 6) % 7 ≡ 0
    → w ≡ (o + 6) % 7
    → 1 ≤ i
    → ((o - a) / 7) % i ≡ 0
    → o ≡ a + 7 * ((o - a) / 7 / i * i) + w
on_schedule a o w i h m e p z =
    let whole : (o - a) / 7 / i * i ≡ (o - a) / 7 = whole_multiple ((o - a) / 7) i p z in
    rw whole (omega arith)
  where
    whole_multiple : (x i : ℕ) → 1 ≤ i → x % i ≡ 0 → x / i * i ≡ x
    whole_multiple x i p z = grind arith

module _ (rule : RecurrenceRule) (anchor : Date) where
  weekly_search-total :
      (after : Date) (rounds offset n : ℕ)
      → offset ≤ n
      → n < offset + rounds
      → (days_after n after).year ≤ 9999
      → is_weekly_day rule anchor (days_after n after) ≡ true
      → (day : Date) × (weekly_search rule anchor after rounds offset ≡ ok day)
  unfolding weekly_search
  weekly_search-total after zero offset n low high y t = absurd (omega arith)
  weekly_search-total after (suc rounds) offset n low high y t =
      let e = add_days-ok offset after (omega (arith, year-days_after offset n after low)) in
      elim (Bool-cases (is_weekly_day rule anchor (days_after offset after))) [
        | inl hit ↦ (days_after offset after, rw (e, weekly_search, hit))
        | inr miss ↦
            let rest : (day : Date) × (weekly_search rule anchor after rounds (offset + 1)
                  ≡ ok day) =
              weekly_search-total after rounds (offset + 1) n
                (apart (λ k. is_weekly_day rule anchor (days_after k after)) offset n low miss t)
                (omega arith) y t in
            (rest.0, rw (e, weekly_search, miss) rest.1)
      ]

  is_weekly_day-IsWeeklyDay :
      (day : Date)
      → IsDate anchor
      → 1 ≤ rule.interval
      → is_weekly_day rule anchor day ≡ true
      → IsWeeklyDay rule anchor day
  unfolding weekday
  is_weekly_day-IsWeeklyDay day v low h =
      let (late, whole, listed) = taken_parts rule anchor day h in
      record {
        periods = (to_ordinal day - anchor_week anchor) / 7 / rule.interval;
        on_time =
            on_schedule (anchor_week anchor) (to_ordinal day) (weekday day) rule.interval late
              (anchor_week_bounds anchor v).1 refl low whole;
        listed = listed;
      }

  IsWeeklyDay-is_weekly_day :
      (day : Date)
      → IsDate anchor
      → 1 ≤ rule.interval
      → IsWeeklyDay rule anchor day
      → is_weekly_day rule anchor day ≡ true
  IsWeeklyDay-is_weekly_day day v low w =
      is_weekly_day_of rule anchor day (w.periods * rule.interval) (weekday day) v w.on_time
        (multiple-mod w.periods rule.interval low) (weekday-lt day) w.listed

  IsFirst-IsNextWeekly :
      (after day : Date) (n : ℕ)
      → IsDate anchor
      → IsDate after
      → 1 ≤ rule.interval
      → IsFirst rule anchor after day 1 n
      → IsNextWeekly rule anchor after day
  IsFirst-IsNextWeekly after day n va vb low w =
      let ord : to_ordinal day ≡ to_ordinal after + n =
        subst (λ d. to_ordinal d ≡ to_ordinal after + n) w.is_day
          (to_ordinal-days_after n after vb) in
      record {
        later = omega (arith, w.from);
        is_weekly = is_weekly_day-IsWeeklyDay day va low w.taken;
        earliest = λ m first before weekly. cc (
          w.skipped m first (omega arith),
          IsWeeklyDay-is_weekly_day (days_after m after) va low weekly,
        );
      }

-- With a rule as the program accepts it and a cursor that does not precede the anchor, the search
-- finds a day, unless the calendar ends first (within 2561 days); it is the first day on one of the
-- rule's weekdays that lies a whole number of intervals of weeks after the anchor's week, and the
-- result has the anchor's time of day.
pub next_weekly-IsNextWeekly :
    (rule : RecurrenceRule) (anchor after : LocalTime)
    → IsDate anchor.date
    → IsDate after.date
    → 1 ≤ rule.interval
    → rule.interval ≤ 365
    → All (λ d. d < 7) rule.weekdays
    → to_ordinal anchor.date ≤ to_ordinal after.date
    → (days_after 2561 after.date).year ≤ 9999
    → (day : Date) × (next_weekly rule anchor after
        ≡ ok (record { date = day; micros = anchor.micros }))
      × IsNextWeekly rule anchor.date after.date day
unfolding next_weekly
next_weekly-IsNextWeekly rule anchor after va vb low high days order year =
    let (n, first, last, taken) =
      weekly_day_exists rule anchor.date after.date va vb low high days order in
    let (day, found) =
      weekly_search-total rule anchor.date after.date 3660 1 n first (omega arith)
        (omega (arith, year-days_after n 2561 after.date last)) taken in
    let (k, w) = weekly_search-IsFirst rule anchor.date after.date 3660 1 day found in
    (day, rw found, IsFirst-IsNextWeekly rule anchor.date after.date day k va vb low w)
