-- ===== src/Schedule/Occurrence/Weekly.antt =====
-- `_next_weekly`: what its bounded search returns, and that 3660 days are always enough.
use native.Mathlib.Decide.{dec_lt}
use lenko_bot.Prelude.{
  All, ==-refl, Outcome-cases, subst, ◌∙◌, ℕ, zero, suc, ◌+◌, ◌-◌, ◌*◌, ◌/◌, ◌%◌, ◌≤◌, ◌<◌, ◌≡◌,
  List, [], ◌∷◌, true, false, inl, inr, arith, any, ok, err, overflow_error, Bool-cases, leb, ◌==◌,
}
use lenko_bot.Calendar.{Date, days_after, add_days, weekday, to_ordinal}
use lenko_bot.Calendar.Ordinal.{IsDate, weekday-lt, to_ordinal_pos, to_ordinal-days_after}
use lenko_bot.Schedule.Rule.{RecurrenceRule}
use lenko_bot.Schedule.Occurrence.{is_weekly_day, weekly_search, anchor_week, weekdays_or}

pub add_days-eq-ok : (n : ℕ) (d e : Date) → add_days n d ≡ ok e → days_after n d ≡ e
unfolding add_days
add_days-eq-ok n d e h = elim (Bool-cases (leb (days_after n d).year 9999)) [
  | inl p ↦ cc (add_days-in_range n d p)
  | inr p ↦ cc (add_days-past n d p)
]
  where
    add_days-in_range :
        (n : ℕ) (d : Date)
        → leb (days_after n d).year 9999 ≡ true
        → add_days n d ≡ ok (days_after n d)
    add_days-in_range n d p = rw p

    add_days-past :
        (n : ℕ) (d : Date)
        → leb (days_after n d).year 9999 ≡ false
        → add_days n d ≡ err overflow_error
    add_days-past n d p = rw p

-- The first day from `offset` on that the rule takes.
pub record IsFirst (rule : RecurrenceRule) (anchor after day : Date) (offset n : ℕ) : Type 0 where
  pub from : offset ≤ n
  pub is_day : days_after n after ≡ day
  pub taken : is_weekly_day rule anchor day ≡ true
  pub skipped :
      (m : ℕ) → offset ≤ m → m < n → is_weekly_day rule anchor (days_after m after) ≡ false

module _ (rule : RecurrenceRule) (anchor after : Date) where
  skipped_before :
      (offset n : ℕ)
      → is_weekly_day rule anchor (days_after offset after) ≡ false
      → ((m : ℕ) → offset + 1 ≤ m → m < n → is_weekly_day rule anchor (days_after m after) ≡ false)
      → (m : ℕ) → offset ≤ m
      → m < n
      → is_weekly_day rule anchor (days_after m after) ≡ false
  skipped_before offset n first later m low high = elim (dec_lt offset m) [
    | yes p ↦ later m (omega arith) high
    | no p ↦
        let e : offset ≡ m = omega arith in
        subst (λ k. is_weekly_day rule anchor (days_after k after) ≡ false) e first
  ]

  pub weekly_search-IsFirst :
      (rounds offset : ℕ) (day : Date)
      → weekly_search rule anchor after rounds offset ≡ ok day
      → (n : ℕ) × IsFirst rule anchor after day offset n
  unfolding weekly_search
  weekly_search-IsFirst zero offset day h = cc
  weekly_search-IsFirst (suc rounds) offset day h = elim (Outcome-cases (add_days offset after)) [
    | inl (found, e) ↦ elim (Bool-cases (is_weekly_day rule anchor found)) [
      | inl t ↦
          let same : found ≡ day = cc (rw (e, weekly_search, t) at h) in
          (
            offset,
            record {
              from = omega arith;
              is_day = add_days-eq-ok offset after found e ∙ same;
              taken = rw (← same) t;
              skipped = λ m low high. absurd (omega arith);
            },
          )
      | inr f ↦
          let (n, w) =
            weekly_search-IsFirst rounds (offset + 1) day (rw (e, weekly_search, f) at h) in
          (
            n,
            record {
              from = omega (arith, w.from);
              is_day = w.is_day;
              taken = w.taken;
              skipped =
                  skipped_before offset n (rw (add_days-eq-ok offset after found e) f) w.skipped;
            },
          )
    ]
    | inr (bad, e) ↦ cc (rw (e, weekly_search) at h)
  ]

-- A multiple of the interval is passed at most one interval after any point.
next_multiple : (e p : ℕ) → 1 ≤ p → (e < (e / p + 1) * p) × ((e / p + 1) * p ≤ e + p)
next_multiple e p h = grind arith

pub multiple-mod : (q i : ℕ) → 1 ≤ i → (q * i) % i ≡ 0
multiple-mod q i h = grind arith

pub anchor_week_bounds :
    (d : Date)
    → IsDate d
    → (anchor_week d + weekday d ≡ to_ordinal d) × ((anchor_week d + 6) % 7 ≡ 0)
unfolding anchor_week weekday
anchor_week_bounds d v = omega (arith, to_ordinal_pos d v)

weekday_of :
    {anchor : Date} (day : Date) (x wd : ℕ)
    → IsDate anchor
    → to_ordinal day ≡ anchor_week anchor + 7 * x + wd
    → wd < 7
    → weekday day ≡ wd
unfolding weekday
weekday_of {anchor} day x wd v e l = omega (arith, anchor_week_bounds anchor v)

module _ (rule : RecurrenceRule) (anchor : Date) where
  pub is_weekly_day_of :
      (day : Date) (x wd : ℕ)
      → IsDate anchor
      → to_ordinal day ≡ anchor_week anchor + 7 * x + wd
      → x % rule.interval ≡ 0
      → wd < 7
      → any (λ d. d == wd) (weekdays_or rule.weekdays (weekday anchor)) ≡ true
      → is_weekly_day rule anchor day ≡ true
  unfolding is_weekly_day
  is_weekly_day_of day x wd v e m l a =
      let late : leb (anchor_week anchor) (to_ordinal day) ≡ true = ground arith in
      let week : (to_ordinal day - anchor_week anchor) / 7 ≡ x = omega arith in
      let same : weekday day ≡ wd = weekday_of day x wd v e l in rw (late, week, m, same, a)

  -- The rule takes some day within one interval of weeks after the cursor.
  pub weekly_day_exists :
      (after : Date)
      → IsDate anchor
      → IsDate after
      → 1 ≤ rule.interval
      → rule.interval ≤ 365
      → All (λ d. d < 7) rule.weekdays
      → to_ordinal anchor ≤ to_ordinal after
      → (n : ℕ) × (1 ≤ n) × (n ≤ 2561) × (is_weekly_day rule anchor (days_after n after) ≡ true)
  unfolding weekdays_or
  weekly_day_exists after va vb low high days order =
      let (wd, small, listed) = some_weekday rule.weekdays days in
      let p : ℕ = 7 * rule.interval in
      let e : ℕ = to_ordinal after - anchor_week anchor in
      let q : ℕ = e / p + 1 in
      let n : ℕ = anchor_week anchor + q * p + wd - to_ordinal after in
      let bound : (e < q * p) × (q * p ≤ e + p) = next_multiple e p (omega arith) in
      let start : anchor_week anchor ≤ to_ordinal after =
        omega (arith, anchor_week_bounds anchor va) in
      let ord : to_ordinal (days_after n after)
          ≡ anchor_week anchor + 7 * (q * rule.interval) + wd =
        omega (arith, to_ordinal-days_after n after vb) in
      (
        n,
        omega arith,
        omega arith,
        is_weekly_day_of (days_after n after) (q * rule.interval) wd va ord
            (multiple-mod q rule.interval low) small listed,
      )
    where
      some_weekday :
          (ds : List ℕ)
          → All (λ d. d < 7) ds
          → (wd : ℕ) × (wd < 7) × (any (λ d. d == wd) (weekdays_or ds (weekday anchor)) ≡ true)
      some_weekday [] w =
          (weekday anchor, weekday-lt anchor, rw (weekdays_or, ==-refl (weekday anchor)))
      some_weekday (d ∷ ds) w = (d, w.0, rw (weekdays_or, ==-refl d))
