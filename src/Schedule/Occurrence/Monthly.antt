-- ===== src/Schedule/Occurrence/Monthly.antt =====
-- `_next_monthly`: the date that its search returns, and the rules for which it finds none.
use lenko_bot.Prelude.{
  ℕ, zero, suc, ◌+◌, ◌-◌, ◌*◌, ◌/◌, ◌%◌, ◌≤◌, ◌<◌, ◌≡◌, refl, sym, ap, true, false, inl, inr, arith,
  Outcome, ok, err, value_error, Bool-cases, >>=-eq-ok,
}
use native.Mathlib.Decide.{dec_lt}
use lenko_bot.Calendar.{Date, LocalTime, is_date, days_in_month}
use lenko_bot.Schedule.Rule.{RecurrenceRule}
use lenko_bot.Schedule.Occurrence.{
  month_candidate, monthday_or, monthly_search, first_step, next_monthly,
}

-- Months are counted through the years.
abbrev pub month_number : Date → ℕ
month_number d = d.year * 12 + d.month

-- The first existing date that lies a whole number of intervals of months after the anchor, on the
-- rule's day of the month and in a month later than the cursor's.
pub record IsNextMonthly (rule : RecurrenceRule) (anchor after day : Date) : Type 0 where
  pub periods : ℕ
  pub on_time : month_number day ≡ month_number anchor + periods * rule.interval
  pub later : month_number after < month_number day
  pub on_day : day.day ≡ monthday_or rule.monthday anchor.day
  pub exists : is_date day ≡ true
  pub earliest :
      (n : ℕ)
      → n < periods
      → month_number after < month_number anchor + n * rule.interval
      → is_date (month_candidate anchor (monthday_or rule.monthday anchor.day) (n * rule.interval))
        ≡ false

month_number-candidate :
    (anchor : Date) (d step : ℕ)
    → 1 ≤ anchor.month
    → month_number (month_candidate anchor d step) ≡ month_number anchor + step
unfolding month_candidate
month_number-candidate anchor d step h = omega arith

module _ (rule : RecurrenceRule) (anchor : Date) where
  candidate : ℕ → Date
  candidate n = month_candidate anchor (monthday_or rule.monthday anchor.day) (n * rule.interval)

  -- The round of the search at which it stops; the rounds before it met dates that do not exist.
  record StopsAt (first n : ℕ) (day : Date) : Type 0 where
    from : first ≤ n
    is_day : candidate n ≡ day
    exists : is_date day ≡ true
    skipped : (m : ℕ) → first ≤ m → m < n → is_date (candidate m) ≡ false

  monthly_search-StopsAt :
      (rounds first step : ℕ) (day : Date)
      → step ≡ first * rule.interval
      → monthly_search rule anchor rounds step ≡ ok day
      → (n : ℕ) × StopsAt first n day
  unfolding monthly_search candidate
  monthly_search-StopsAt zero first step day e h = cc
  monthly_search-StopsAt (suc rounds) first step day e h =
      elim (Bool-cases
        (is_date (month_candidate anchor (monthday_or rule.monthday anchor.day) step))) [
          | inl t ↦
              let same : month_candidate anchor (monthday_or rule.monthday anchor.day) step ≡ day =
                cc (rw (t, monthly_search) at h) in
              (
                first,
                record {
                  from = omega arith;
                  is_day = rw (← e) same;
                  exists = rw (← same) t;
                  skipped = λ m low high. absurd (omega arith);
                },
              )
          | inr f ↦
              let (n, w) =
                monthly_search-StopsAt rounds (first + 1) (step + rule.interval) day
                  (rw e (omega arith)) (rw (f, monthly_search) at h) in
              (
                n,
                record {
                  from = omega (arith, w.from);
                  is_day = w.is_day;
                  exists = w.exists;
                  skipped = λ m low high. elim (dec_lt first m) [
                    | yes p ↦ w.skipped m (omega arith) high
                    | no p ↦ let i : m ≡ first = omega arith in rw (i, ← e) f
                  ];
                },
              )
        ]

  monthly_search-none :
      (rounds first step : ℕ)
      → step ≡ first * rule.interval
      → ((m : ℕ) → is_date (candidate m) ≡ false)
      → monthly_search rule anchor rounds step ≡ err value_error
  unfolding monthly_search candidate
  monthly_search-none zero first step e h = refl
  monthly_search-none (suc rounds) first step e h =
      let f : is_date (month_candidate anchor (monthday_or rule.monthday anchor.day) step) ≡ false =
        rw e (h first) in
      rw (f, monthly_search)
        (monthly_search-none rounds (first + 1) (step + rule.interval) (rw e (omega arith)) h)

before_first : (n e i : ℕ) → 1 ≤ i → n < e / i + 1 → n * i ≤ e
before_first n e i p h = grind arith

times_mono : (a b i : ℕ) → a ≤ b → a * i ≤ b * i
times_mono a b i h = grind arith

after_first : (e i : ℕ) → 1 ≤ i → e < (e / i + 1) * i
after_first e i p = grind arith

StopsAt-IsNextMonthly :
    (rule : RecurrenceRule) (anchor after day : Date) (n : ℕ)
    → 1 ≤ rule.interval
    → 1 ≤ anchor.month
    → month_number anchor ≤ month_number after
    → StopsAt rule anchor ((month_number after - month_number anchor) / rule.interval + 1) n day
    → IsNextMonthly rule anchor after day
unfolding candidate month_candidate
StopsAt-IsNextMonthly rule anchor after day n low month order w =
    let e : ℕ = month_number after - month_number anchor in
    let d : ℕ = monthday_or rule.monthday anchor.day in
    let on_time : month_number day ≡ month_number anchor + n * rule.interval =
      rw (← w.is_day) (month_number-candidate anchor d (n * rule.interval) month) in
    record {
      periods = n;
      on_time = on_time;
      later = omega (
        arith,
        after_first e rule.interval low,
        times_mono (e / rule.interval + 1) n rule.interval w.from,
      );
      on_day = rw (← w.is_day, month_candidate);
      exists = w.exists;
      earliest = λ m before high. elim (dec_lt m (e / rule.interval + 1)) [
        | yes p ↦ absurd (omega (arith, before_first m e rule.interval low p))
        | no p ↦ w.skipped m (omega arith) before
      ];
    }

multiple_of_12 : (n i : ℕ) → i % 12 ≡ 0 → (n * i) % 12 ≡ 0
multiple_of_12 n i h = let e : i ≡ 12 * (i / 12) = omega arith in rw e (omega arith)

february : (y m : ℕ) → m ≡ 2 → days_in_month y m ≤ 29
unfolding days_in_month
february y m h = ground arith

no_such_day :
    (anchor : Date) (d step : ℕ)
    → anchor.month ≡ 2
    → step % 12 ≡ 0
    → 30 ≤ d
    → is_date (month_candidate anchor d step) ≡ false
unfolding is_date month_candidate
no_such_day anchor d step feb years late =
    let m : (anchor.year * 12 + anchor.month - 1 + step) % 12 + 1 ≡ 2 = omega arith in
    let short = february ((anchor.year * 12 + anchor.month - 1 + step) / 12) _ m in ground arith

-- With a cursor in the anchor's month or later, a result of the search is the next date of the rule,
-- at the anchor's time of day.
pub next_monthly-IsNextMonthly :
    (rule : RecurrenceRule) (anchor after t : LocalTime)
    → 1 ≤ rule.interval
    → 1 ≤ anchor.date.month
    → month_number anchor.date ≤ month_number after.date
    → next_monthly rule anchor after ≡ ok t
    → (t.micros ≡ anchor.micros) × IsNextMonthly rule anchor.date after.date t.date
unfolding next_monthly first_step
next_monthly-IsNextMonthly rule anchor after t low month order h =
    let (day, found, made) =
      >>=-eq-ok (monthly_search rule anchor.date 1200 (first_step rule anchor.date after.date)) _
        h in
    let elapsed : ℕ = month_number after.date - month_number anchor.date in
    let (n, w) =
      monthly_search-StopsAt rule anchor.date 1200 (elapsed / rule.interval + 1)
        (first_step rule anchor.date after.date) day refl found in
    let date : day ≡ t.date = ap (λ (o : Outcome LocalTime). date_or day o) made in
    let micros : anchor.micros ≡ t.micros = ap (λ (o : Outcome LocalTime). micros_or 0 o) made in
    (
      sym micros,
      rw (← date) (StopsAt-IsNextMonthly rule anchor.date after.date day n low month order w),
    )
  where
    date_or : Date → Outcome LocalTime → Date
    date_or d (ok u) = u.date
    date_or d (err e) = d

    micros_or : ℕ → Outcome LocalTime → ℕ
    micros_or d (ok u) = u.micros
    micros_or d (err e) = d

-- A monthly rule on the 30th or 31st, anchored in February and with whole years between its months,
-- has no next date: the search raises ValueError.
pub next_monthly-impossible :
    (rule : RecurrenceRule) (anchor after : LocalTime)
    → anchor.date.month ≡ 2
    → rule.interval % 12 ≡ 0
    → 30 ≤ monthday_or rule.monthday anchor.date.day
    → next_monthly rule anchor after ≡ err value_error
unfolding next_monthly first_step candidate
next_monthly-impossible rule anchor after feb years late = rw (
    monthly_search-none rule anchor.date 1200
      ((month_number after.date - month_number anchor.date) / rule.interval + 1) _ refl
      (λ n.
        no_such_day anchor.date (monthday_or rule.monthday anchor.date.day) (n * rule.interval) feb
          (multiple_of_12 n rule.interval years) late))
