-- ===== src/Schedule/Zone.antt =====
-- `_load_zone` and `resolve_local_time`. Python's `zoneinfo` reads the IANA database of the system, so
-- it is a parameter: what a zone name stands for, and what a zone does to times. An instant is the
-- number of microseconds in UTC since year 1 began, so the order of instants is that of numbers.
pub mod Laws
use lenko_bot.Prelude.{
  ℕ, List, [], ◌∷◌, Bool, true, false, if◌then◌else◌, ◌==◌, any, Option, Outcome, ok, err, ◌>>=◌,
  ◌>>◌, raise_if, or_raise, value_error, nonexistent, ambiguous,
}
use lenko_bot.Calendar.{LocalTime, local_eq}
use lenko_bot.Text.{Text, strip, is_blank}

pub record Zone : Type 0 where
  -- The instant of a wall time, read with `fold=0` (false) or `fold=1` (true).
  pub to_utc : Bool → LocalTime → ℕ
  -- The wall time of an instant, without its `tzinfo`.
  pub from_utc : ℕ → LocalTime

-- `ZoneInfo(name)`; `none` is ZoneInfoNotFoundError.
abbrev pub ZoneDatabase : Type 0
ZoneDatabase = Text → Option Zone

unfoldable pub load_zone : ZoneDatabase → Text → Outcome Zone
load_zone tz name = do raise_if (is_blank name) value_error; or_raise (tz (strip name)) value_error

-- `candidates.add(utc)`, if the wall time survives the round trip through UTC.
unfoldable pub add_candidate : Zone → LocalTime → Bool → List ℕ → List ℕ
add_candidate z t fold found =
    let utc = z.to_utc fold t in
    if local_eq (z.from_utc utc) t
    then (if any (λ u. u == utc) found then found else utc ∷ found)
    else found

unfoldable pub only_candidate : List ℕ → Outcome ℕ
only_candidate [] = err nonexistent
only_candidate (u ∷ []) = ok u
only_candidate (u ∷ v ∷ rest) = err ambiguous

unfoldable pub resolve_in_zone : Zone → LocalTime → Outcome ℕ
unfolding add_candidate only_candidate
resolve_in_zone z t = only_candidate (add_candidate z t true (add_candidate z t false []))

unfoldable pub resolve_local_time : ZoneDatabase → LocalTime → Text → Outcome ℕ
resolve_local_time tz t name = do z ← load_zone tz name; resolve_in_zone z t
