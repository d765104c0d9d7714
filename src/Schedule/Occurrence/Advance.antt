-- ===== src/Schedule/Occurrence/Advance.antt =====
-- `next_occurrence` moves forward, and keeps within the rule's count and end.
use lenko_bot.Prelude.{
  ℕ, ◌≤◌, ◌<◌, ◌≡◌, refl, ◌∙◌, ap, subst, ◌⊎◌, true, false, inl, inr, arith, Option, none, some,
  Outcome, ok, Bool-cases, >>=-eq-ok,
}
use lenko_bot.Calendar.{Date, LocalTime, days_after, date_ltb, local_ltb}
use lenko_bot.Calendar.Ordinal.{IsDate, is_date-IsDate}
use lenko_bot.Calendar.Order.{date_ltb-days_after, local_ltb-date, date_ltb-months}
use lenko_bot.Schedule.Rule.{RecurrenceRule, ScheduleKind, once, daily, weekly, monthly}
use lenko_bot.Schedule.Occurrence.{
  candidate_after, candidate_of, next_weekly, next_monthly, next_occurrence, weekly_search, up_to,
  is_used_up, precedes,
}
use lenko_bot.Schedule.Occurrence.Weekly.{add_days-eq-ok, weekly_search-IsFirst}
use lenko_bot.Schedule.Occurrence.Monthly.{next_monthly-IsNextMonthly, month_number}

some_injective :
    {A : Type 0} {a b : A} → ◌≡◌ {A = Outcome (Option A)} (ok (some a)) (ok (some b)) → a ≡ b
some_injective h = cc

daily_later :
    (n : ℕ) (after : LocalTime) (day : Date)
    → 1 ≤ n
    → days_after n after.date ≡ day
    → local_ltb after (record after { date = day }) ≡ true
daily_later n after day h e = local_ltb-date _ _ (rw (← e) (date_ltb-days_after n after.date h))

weekly_later :
    (rule : RecurrenceRule) (anchor after t : LocalTime)
    → next_weekly rule anchor after ≡ ok t
    → local_ltb after t ≡ true
unfolding next_weekly
weekly_later rule anchor after t h =
    let (day, found, made) = >>=-eq-ok (weekly_search rule anchor.date after.date 3660 1) _ h in
    let (n, w) = weekly_search-IsFirst rule anchor.date after.date 3660 1 day found in
    let made' : ◌≡◌ {A = LocalTime} (record { date = day; micros = anchor.micros }) t = cc made in
    rw (← made') (local_ltb-date _ _ (rw (← w.is_day) (date_ltb-days_after n after.date w.from)))

monthly_later :
    (rule : RecurrenceRule) (anchor after t : LocalTime)
    → 1 ≤ rule.interval
    → IsDate anchor.date
    → IsDate after.date
    → month_number anchor.date ≤ month_number after.date
    → next_monthly rule anchor after ≡ ok t
    → local_ltb after t ≡ true
monthly_later rule anchor after t low va vb order h =
    let w = (next_monthly-IsNextMonthly rule anchor after t low va.month_pos order h).1 in
    let v = (is_date-IsDate t.date w.exists).0 in
    local_ltb-date after t
      (date_ltb-months after.date t.date vb.month_le v.month_pos vb.month_pos v.month_le w.later)

months_in_order :
    (anchor after : LocalTime)
    → IsDate anchor.date
    → IsDate after.date
    → local_ltb after anchor ≡ false
    → month_number anchor.date ≤ month_number after.date
unfolding local_ltb date_ltb
months_in_order anchor after va vb h = ground arith

candidate_after-later :
    (kind : ScheduleKind) (rule : RecurrenceRule) (anchor after t : LocalTime)
    → 1 ≤ rule.interval
    → IsDate anchor.date
    → IsDate after.date
    → local_ltb after anchor ≡ false
    → candidate_after kind rule anchor after ≡ ok (some t)
    → local_ltb after t ≡ true
unfolding candidate_after
candidate_after-later once rule anchor after t low va vb o h = cc
candidate_after-later daily rule anchor after t low va vb o h =
    let (day, found, made) = >>=-eq-ok _ _ h in
    let same : ◌≡◌ {A = LocalTime} (record after { date = day }) t = some_injective made in
    subst (λ u. local_ltb after u ≡ true) same
      (daily_later rule.interval after day low (add_days-eq-ok rule.interval after.date day found))
candidate_after-later weekly rule anchor after t low va vb o h =
    let (u, found, made) = >>=-eq-ok _ _ h in
    subst (λ v. local_ltb after v ≡ true) (some_injective {a = u} {b = t} made)
      (weekly_later rule anchor after u found)
candidate_after-later monthly rule anchor after t low va vb o h =
    let (u, found, made) = >>=-eq-ok _ _ h in
    subst (λ v. local_ltb after v ≡ true) (some_injective {a = u} {b = t} made)
      (monthly_later rule anchor after u low va vb (months_in_order anchor after va vb o) found)

up_to-eq-some :
    (until c : Option LocalTime) (t : LocalTime)
    → up_to until c ≡ some t
    → (c ≡ some t) × (up_to until (some t) ≡ some t)
up_to-eq-some none none t h = cc
up_to-eq-some none (some u) t h = ground arith
up_to-eq-some (some l) none t h = cc
up_to-eq-some (some l) (some u) t h = ground arith

-- What a successful call has passed: its tests, and the limit `until_local`.
passed :
    (rule : RecurrenceRule) (anchor : LocalTime) (after : Option LocalTime) (emitted : ℕ)
    (t : LocalTime)
    → next_occurrence rule anchor after emitted ≡ ok (some t)
    → (precedes after anchor ≡ false)
      × (is_used_up rule.count emitted ≡ false)
      × (candidate_of rule anchor after ≡ ok (some t))
      × (up_to rule.until_local (some t) ≡ some t)
unfolding next_occurrence
passed rule anchor after emitted t h = elim (Bool-cases (precedes after anchor)) [
  | inl e ↦ cc (rw (e, next_occurrence) at h)
  | inr e ↦ elim (Bool-cases (is_used_up rule.count emitted)) [
    | inl u ↦ cc (rw (e, u, next_occurrence) at h)
    | inr u ↦
        let (c, found, made) =
          >>=-eq-ok (candidate_of rule anchor after) _ (rw (e, u, next_occurrence) at h) in
        let cut : up_to rule.until_local c ≡ some t = cc made in
        let (same, within) = up_to-eq-some rule.until_local c t cut in
        (e, u, found ∙ ap ok same, within)
  ]
]

within_limit :
    (until : Option LocalTime) (t : LocalTime)
    → up_to until (some t) ≡ some t
    → (until ≡ none) ⊎ ((limit : LocalTime) × (until ≡ some limit) × (local_ltb limit t ≡ false))
within_limit none t w = inl refl
within_limit (some limit) t w = inr (limit, refl, ground arith)

below_count :
    (count : Option ℕ) (emitted : ℕ)
    → is_used_up count emitted ≡ false
    → (count ≡ none) ⊎ ((n : ℕ) × (count ≡ some n) × (emitted < n))
below_count none emitted u = inl refl
below_count (some n) emitted u = inr (n, refl, ground arith)

-- For a rule with an interval of at least 1 and real dates: the next occurrence after a cursor is later
-- than the cursor; it is not past `until_local` where the rule has one, and a rule with a count has
-- been run fewer times than that.
pub next_occurrence-later :
    (rule : RecurrenceRule) (anchor after t : LocalTime) (emitted : ℕ)
    → 1 ≤ rule.interval
    → IsDate anchor.date
    → IsDate after.date
    → next_occurrence rule anchor (some after) emitted ≡ ok (some t)
    → (local_ltb after t ≡ true)
      × ((rule.until_local ≡ none)
          ⊎ ((limit : LocalTime) × (rule.until_local ≡ some limit) × (local_ltb limit t ≡ false)))
      × ((rule.count ≡ none) ⊎ ((n : ℕ) × (rule.count ≡ some n) × (emitted < n)))
unfolding candidate_of
next_occurrence-later rule anchor after t emitted low va vb h =
    let (order, unused, found, within) = passed rule anchor (some after) emitted t h in
    (
      candidate_after-later rule.kind rule anchor after t low va vb order found,
      within_limit rule.until_local t within,
      below_count rule.count emitted unused,
    )

-- A rule that has run as often as its count has no next occurrence.
pub next_occurrence_counted :
    (rule : RecurrenceRule) (anchor : LocalTime) (after : Option LocalTime) (emitted n : ℕ)
    → rule.count ≡ some n
    → n ≤ emitted
    → precedes after anchor ≡ false
    → next_occurrence rule anchor after emitted ≡ ok none
unfolding next_occurrence
next_occurrence_counted rule anchor after emitted n e h p =
    rw (p, next_occurrence, e) (ground arith)
