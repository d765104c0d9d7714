-- ===== src/Schedule/Quiet/Laws.antt =====
-- When `quiet_hours_available_at` lets a delivery go out.
use lenko_bot.Prelude.{
  ℕ, ◌+◌, ◌-◌, ◌*◌, ◌/◌, ◌%◌, ◌<◌, ◌≤◌, ◌≡◌, ◌≢◌, refl, ◌⊎◌, true, false, inl, inr, arith, some, ok,
  Bool-cases, >>=-eq-ok,
}
use lenko_bot.Calendar.{Date, LocalTime, add_days}
use lenko_bot.Text.{Text}
use lenko_bot.Schedule.Zone.{Zone, ZoneDatabase, load_zone, resolve_local_time}
use lenko_bot.Schedule.Zone.Laws.{resolve_in_zone_unique}
use lenko_bot.Schedule.Quiet.{
  micros_per_minute, minute_of_day, in_quiet_hours, quiet_end_date, leave_quiet_hours,
  quiet_available, quiet_hours_available_at, check_quiet_hours,
}

check_quiet_hours-ok :
    (start end : ℕ)
    → check_quiet_hours start end ≡ ok tt
    → (start < 1440) × (end < 1440) × (start ≢ end)
unfolding check_quiet_hours
check_quiet_hours-ok start end h = ground arith

-- The minutes from `start` to `m` on a clock of 1440 minutes.
abbrev pub minutes_since : ℕ → ℕ → ℕ
minutes_since start m = (m + 1440 - start) % 1440

-- The clock comes to `m` on its way from `start` to `end`, before `end`.
abbrev pub IsQuiet : ℕ → ℕ → ℕ → Type 0
IsQuiet start end m = minutes_since start m < minutes_since start end

IsQuiet-in_quiet_hours :
    (start end m : ℕ)
    → start < 1440
    → end < 1440
    → start ≢ end
    → m < 1440
    → ((in_quiet_hours start end m ≡ true) × IsQuiet start end m)
      ⊎ ((in_quiet_hours start end m ≡ false) × ¬ (IsQuiet start end m))
unfolding in_quiet_hours
IsQuiet-in_quiet_hours start end m hs he ne hm = elim (Bool-cases (in_quiet_hours start end m)) [
  | inl e ↦ inl (e, ground (arith, e))
  | inr e ↦ inr (e, ground (arith, e))
]

end_is_awake : (start end : ℕ) → ¬ (IsQuiet start end end)
end_is_awake start end h = omega arith

-- The local time of day `end` that comes next after `t`: on its date, or on the next one where that
-- time of day has passed.
abbrev pub IsNextAt : ℕ → LocalTime → LocalTime → Type 0
IsNextAt end t target =
    (target.micros ≡ end * 60_000_000)
    × (((t.micros < end * 60_000_000) × (target.date ≡ t.date))
        ⊎ ((end * 60_000_000 ≤ t.micros) × (add_days 1 t.date ≡ ok target.date)))

quiet_end_date-IsNextAt :
    (start end : ℕ) (t : LocalTime) (day : Date)
    → in_quiet_hours start end (minute_of_day t) ≡ true
    → quiet_end_date start end t ≡ ok day
    → IsNextAt end t (record { date = day; micros = end * micros_per_minute })
unfolding in_quiet_hours quiet_end_date minute_of_day
quiet_end_date-IsNextAt start end t day quiet h = (refl, ground arith)

leave_next :
    (tz : ZoneDatabase) (z : Zone) (name : Text) (scheduled start end u : ℕ)
    → load_zone tz name ≡ ok z
    → in_quiet_hours start end (minute_of_day (z.from_utc scheduled)) ≡ true
    → leave_quiet_hours tz z name scheduled start end ≡ ok u
    → IsNextAt end (z.from_utc scheduled) (z.from_utc u)
unfolding leave_quiet_hours resolve_local_time
leave_next tz z name scheduled start end u zone quiet h =
    let (day, found, r) =
      >>=-eq-ok (quiet_end_date start end (z.from_utc scheduled)) _
        (rw (quiet, leave_quiet_hours) at h) in
    let (z', loaded, resolved) = >>=-eq-ok (load_zone tz name) _ (r) in
    let same : z' ≡ z = cc in
    let target : LocalTime = record { date = day; micros = end * micros_per_minute } in
    let w = (resolve_in_zone_unique z target u (rw (← same) resolved)).0 in
    rw w.wall (quiet_end_date-IsNextAt start end (z.from_utc scheduled) day quiet found)

leave_kept :
    (tz : ZoneDatabase) (z : Zone) (name : Text) (scheduled start end u : ℕ)
    → in_quiet_hours start end (minute_of_day (z.from_utc scheduled)) ≡ false
    → leave_quiet_hours tz z name scheduled start end ≡ ok u
    → u ≡ scheduled
unfolding leave_quiet_hours
leave_kept tz z name scheduled start end u awake left = cc (rw (awake, leave_quiet_hours) at left)

quiet_available-split :
    (tz : ZoneDatabase) (z : Zone) (name : Text) (scheduled start end u : ℕ)
    → quiet_available tz z name scheduled (some start) (some end) false ≡ ok u
    → (check_quiet_hours start end ≡ ok tt)
      × (leave_quiet_hours tz z name scheduled start end ≡ ok u)
unfolding quiet_available
quiet_available-split tz z name scheduled start end u h = ground arith

-- For a reminder that is not urgent, with quiet hours from `start` to `end`, in a zone that shows a time
-- of day below 24 hours for the scheduled instant: a scheduled instant whose local minute is outside
-- the quiet hours is given back; for one inside them the call gives an instant whose local time is the
-- next time of day `end` after the scheduled local time, on the next date if that time has passed on
-- the scheduled one. The quiet hours are the minutes that the clock shows from `start` on until it
-- shows `end`, over midnight where `end` is the earlier one, and at the local time that is given they
-- are not running.
pub quiet_hours_available_at-awake :
    (tz : ZoneDatabase) (z : Zone) (name : Text) (scheduled start end u : ℕ)
    → load_zone tz name ≡ ok z
    → (z.from_utc scheduled).micros < 86_400_000_000
    → quiet_hours_available_at tz scheduled name (some start) (some end) false ≡ ok u
    → ((IsQuiet start end ((z.from_utc scheduled).micros / 60_000_000)
          × IsNextAt end (z.from_utc scheduled) (z.from_utc u))
        ⊎ (¬ (IsQuiet start end ((z.from_utc scheduled).micros / 60_000_000)) × (u ≡ scheduled)))
      × ¬ (IsQuiet start end ((z.from_utc u).micros / 60_000_000))
unfolding quiet_hours_available_at minute_of_day
quiet_hours_available_at-awake tz z name scheduled start end u zone range h =
    let (z', loaded, r) = >>=-eq-ok (load_zone tz name) _ h in
    let same : z' ≡ z = cc in
    let (valid, left) = quiet_available-split tz z name scheduled start end u (rw (← same) r) in
    let (hs, he, ne) = check_quiet_hours-ok start end valid in
    let split =
      IsQuiet-in_quiet_hours start end (minute_of_day (z.from_utc scheduled)) hs he ne
        (omega (arith, range)) in
    elim split [
      | inl (e, quiet) ↦
          let next = leave_next tz z name scheduled start end u zone e left in
          (inl (quiet, next), rw next.0 (λ q. end_is_awake start end (rw whole at q)))
      | inr (e, awake) ↦
          let kept = leave_kept tz z name scheduled start end u e left in
          (inr (awake, kept), rw kept awake)
    ]
  where
    whole : (end * 60_000_000) / 60_000_000 ≡ end
    whole = omega arith
