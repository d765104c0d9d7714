-- ===== src/Schedule/Rule.antt =====
-- `ScheduleKind` and `RecurrenceRule` with the checks and the normalisation of `__post_init__`. The
-- fields have their declared types, so the tests by `isinstance` have nothing to refuse here.
pub mod Laws
use lenko_bot.Prelude.{
  ℕ, List, [], ◌∷◌, Bool, true, false, not, ◌||◌, ltb, ◌==◌, if◌then◌else◌, any, is_some, Option,
  none, some, Outcome, ok, ◌>>◌, raise_if, value_error,
}
use lenko_bot.Calendar.{LocalTime}

pub data ScheduleKind : Type 0 where
  once daily weekly monthly : ScheduleKind

pub record RecurrenceRule : Type 0 where
  pub kind : ScheduleKind
  pub interval : ℕ
  pub weekdays : List ℕ
  pub monthday : Option ℕ
  pub count : Option ℕ
  pub until_local : Option LocalTime

-- `sorted(set(values))`, one value at a time.
unfoldable pub insert_sorted : ℕ → List ℕ → List ℕ
insert_sorted n [] = n ∷ []
insert_sorted n (m ∷ ms) =
    if ltb n m then n ∷ m ∷ ms else if n == m then m ∷ ms else m ∷ insert_sorted n ms

unfoldable pub sorted_set : List ℕ → List ℕ
unfolding insert_sorted
sorted_set [] = []
sorted_set (n ∷ ns) = insert_sorted n (sorted_set ns)

abbrev pub is_nonempty : List ℕ → Bool
is_nonempty [] = false
is_nonempty (n ∷ ns) = true

-- `value is not None and (value < low or value > high)`
abbrev pub is_outside : ℕ → ℕ → Option ℕ → Bool
is_outside low high none = false
is_outside low high (some n) = ltb n low || ltb high n

-- The fields that a rule of each kind may not have.
unfoldable pub has_bad_shape : ScheduleKind → RecurrenceRule → Bool
has_bad_shape once r =
    not (r.interval == 1)
    || is_nonempty r.weekdays
    || is_some r.monthday
    || is_some r.count
    || is_some r.until_local
has_bad_shape daily r = is_nonempty r.weekdays || is_some r.monthday
has_bad_shape weekly r = is_some r.monthday
has_bad_shape monthly r = is_nonempty r.weekdays

-- `RecurrenceRule(...)`
unfoldable pub make_rule : RecurrenceRule → Outcome RecurrenceRule
make_rule given = do
  raise_if (ltb given.interval 1 || ltb 365 given.interval) value_error
  raise_if (any (λ day. ltb 6 day) given.weekdays) value_error
  let r = record given { weekdays = sorted_set given.weekdays }
  raise_if (is_outside 1 31 r.monthday) value_error
  raise_if (is_outside 1 10000 r.count) value_error
  raise_if (has_bad_shape r.kind r) value_error
  ok r
