-- ===== src/Calendar/Order.antt =====
-- The order of dates and naive datetimes, by which Python compares them field by field.
use native.Mathlib.Decide.{dec_lt}
use lenko_bot.Prelude.{ℕ, zero, suc, ◌+◌, ◌*◌, ◌≤◌, ◌<◌, ◌≡◌, true, false, arith}
use lenko_bot.Calendar.{Date, LocalTime, date_ltb, local_ltb, local_eq, next_day, days_after}

pub date_ltb-next_day : (d : Date) → date_ltb d (next_day d) ≡ true
unfolding date_ltb next_day
date_ltb-next_day d = ground arith

pub date_ltb_trans :
    (a b c : Date) → date_ltb a b ≡ true → date_ltb b c ≡ true → date_ltb a c ≡ true
unfolding date_ltb
date_ltb_trans a b c p q = ground arith

pub date_ltb_asymm : (a b : Date) → date_ltb a b ≡ true → date_ltb b a ≡ false
unfolding date_ltb
date_ltb_asymm a b p = ground arith

pub date_ltb-days_after : (n : ℕ) (d : Date) → 1 ≤ n → date_ltb d (days_after n d) ≡ true
unfolding days_after
date_ltb-days_after zero d h = absurd (omega arith)
date_ltb-days_after (suc zero) d h = date_ltb-next_day d
date_ltb-days_after (suc (suc n)) d h =
    date_ltb_trans d _ _ (date_ltb-days_after (suc n) d (omega arith)) (date_ltb-next_day _)

-- A later date makes a later datetime, whatever the times of day.
pub local_ltb-date : (a b : LocalTime) → date_ltb a.date b.date ≡ true → local_ltb a b ≡ true
unfolding local_ltb
local_ltb-date a b h = ground arith

pub local_eq_sound : (a b : LocalTime) → local_eq a b ≡ true → a ≡ b
unfolding local_eq
local_eq_sound a b h = ground arith

pub local_eq_refl : (a : LocalTime) → local_eq a a ≡ true
unfolding local_eq
local_eq_refl a = ground arith

pub local_ltb_irrefl : (a : LocalTime) → local_ltb a a ≡ false
unfolding local_ltb
local_ltb_irrefl a = ground arith

-- With the later month as `year * 12 + month` the date is later.
pub date_ltb-months :
    (a b : Date)
    → a.month ≤ 12
    → 1 ≤ b.month
    → 1 ≤ a.month
    → b.month ≤ 12
    → a.year * 12 + a.month < b.year * 12 + b.month
    → date_ltb a b ≡ true
unfolding date_ltb
date_ltb-months a b p q r s h = ground arith

year-next_day : (d : Date) → d.year ≤ (next_day d).year
unfolding next_day
year-next_day d = ground arith

pub year-days_after : (m n : ℕ) (d : Date) → m ≤ n → (days_after m d).year ≤ (days_after n d).year
unfolding days_after
year-days_after m zero d h = let e : m ≡ 0 = omega arith in rw e (omega arith)
year-days_after m (suc n) d h = elim (dec_lt n m) [
  | yes p ↦ let e : m ≡ suc n = omega arith in rw e (omega arith)
  | no p ↦ omega (arith, year-days_after m n d (omega arith), year-next_day (days_after n d))
]
