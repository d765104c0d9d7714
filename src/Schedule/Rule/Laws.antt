-- ===== src/Schedule/Rule/Laws.antt =====
-- What `RecurrenceRule` guarantees of a rule that it accepts.
use lenko_bot.Prelude.{ℕ, ◌≤◌, ◌<◌, ◌≡◌, refl, List, [], ◌∷◌, false, arith, any, All, ok, ltb, ◌+◌}
use lenko_bot.Schedule.Rule.{
  RecurrenceRule, insert_sorted, sorted_set, make_rule, has_bad_shape, is_outside,
}

-- Strictly ascending from a lower bound on, so sorted and with no value twice.
abbrev pub AscendingFrom : ℕ → List ℕ → Type 0
AscendingFrom n [] = Unit
AscendingFrom n (m ∷ ms) = (n ≤ m) × AscendingFrom (m + 1) ms

pub record IsRule (r : RecurrenceRule) : Type 0 where
  pub interval_pos : 1 ≤ r.interval
  pub interval_le : r.interval ≤ 365
  pub days_valid : All (λ d. d < 7) r.weekdays
  pub days_sorted : AscendingFrom 0 r.weekdays
  pub monthday_valid : is_outside 1 31 r.monthday ≡ false
  pub count_valid : is_outside 1 10000 r.count ≡ false
  pub shape_valid : has_bad_shape r.kind r ≡ false

-- A list that is already sorted with no value twice is left alone.
insert_sorted-head : (n : ℕ) (ms : List ℕ) → AscendingFrom (n + 1) ms → insert_sorted n ms ≡ n ∷ ms
unfolding insert_sorted
insert_sorted-head n [] w = refl
insert_sorted-head n (m ∷ ms) w = ground arith

sorted_set-id : (k : ℕ) (ns : List ℕ) → AscendingFrom k ns → sorted_set ns ≡ ns
unfolding sorted_set
sorted_set-id k [] w = refl
sorted_set-id k (n ∷ ns) w = rw (sorted_set-id (n + 1) ns w.1) (insert_sorted-head n ns w.1)

All-any : (ns : List ℕ) → All (λ d. d < 7) ns → any (λ d. ltb 6 d) ns ≡ false
All-any [] h = refl
All-any (n ∷ ns) h = ground (arith, All-any ns)

-- Every rule that is in range, shape and order is accepted unchanged.
pub IsRule-make_rule : (r : RecurrenceRule) → IsRule r → make_rule r ≡ ok r
unfolding make_rule
IsRule-make_rule r v =
    let low : ltb r.interval 1 ≡ false = ground arith in
    let high : ltb 365 r.interval ≡ false = ground arith in
    rw (
      low,
      high,
      All-any r.weekdays v.days_valid,
      sorted_set-id 0 r.weekdays v.days_sorted,
      v.monthday_valid,
      v.count_valid,
      v.shape_valid,
    )
