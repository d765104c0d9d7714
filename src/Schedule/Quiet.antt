-- ===== src/Schedule/Quiet.antt =====
-- `quiet_hours_available_at`: when a delivery that falls into the quiet hours may go out.
pub mod Laws
use lenko_bot.Prelude.{
  ℕ, ◌*◌, ◌/◌, Bool, true, false, ◌&&◌, ◌||◌, ltb, leb, ◌==◌, if◌then◌else◌, Option, none, some,
  Outcome, ok, err, ◌>>=◌, ◌>>◌, raise_if, value_error,
}
use lenko_bot.Calendar.{Date, LocalTime, add_days}
use lenko_bot.Text.{Text}
use lenko_bot.Schedule.Zone.{Zone, ZoneDatabase, load_zone, resolve_local_time}

abbrev pub micros_per_minute : ℕ
micros_per_minute = 60_000_000

-- `local.hour * 60 + local.minute`
unfoldable pub minute_of_day : LocalTime → ℕ
minute_of_day t = t.micros / micros_per_minute

unfoldable pub in_quiet_hours : ℕ → ℕ → ℕ → Bool
in_quiet_hours start end minute =
    if ltb start end then leb start minute && ltb minute end else leb start minute || ltb minute end

-- The date on which the quiet hours that hold this minute end.
unfoldable pub quiet_end_date : ℕ → ℕ → LocalTime → Outcome Date
quiet_end_date start end t =
    if ltb start end
    then ok t.date
    else if leb start (minute_of_day t)
    then add_days 1 t.date
    else ok t.date

-- `_validate_quiet_hours` on two minutes.
unfoldable pub check_quiet_hours : ℕ → ℕ → Outcome (Unit {0})
check_quiet_hours start end = do
  raise_if (leb 1440 start || leb 1440 end) value_error
  raise_if (start == end) value_error

unfoldable pub leave_quiet_hours : ZoneDatabase → Zone → Text → ℕ → ℕ → ℕ → Outcome ℕ
leave_quiet_hours tz zone name scheduled start end = do
  let t = zone.from_utc scheduled
  let wait = do
    day ← quiet_end_date start end t
    resolve_local_time tz (record { date = day; micros = end * micros_per_minute }) name
  if in_quiet_hours start end (minute_of_day t) then wait else ok scheduled

unfoldable pub quiet_available :
    ZoneDatabase → Zone → Text → ℕ → Option ℕ → Option ℕ → Bool → Outcome ℕ
quiet_available tz zone name scheduled none none urgent = ok scheduled
quiet_available tz zone name scheduled none (some end) urgent = err value_error
quiet_available tz zone name scheduled (some start) none urgent = err value_error
quiet_available tz zone name scheduled (some start) (some end) urgent = do
  check_quiet_hours start end
  if urgent then ok scheduled else leave_quiet_hours tz zone name scheduled start end

unfoldable pub quiet_hours_available_at :
    ZoneDatabase → ℕ → Text → Option ℕ → Option ℕ → Bool → Outcome ℕ
quiet_hours_available_at tz scheduled name start end urgent = do
  zone ← load_zone tz name
  quiet_available tz zone name scheduled start end urgent
