-- ===== src/Reminder/Due/Cursor.antt =====
-- The job's cursor after a run: the occurrence that was emitted does not come again.
use lenko_bot.Prelude.{
  ap, ℕ, ◌+◌, ◌≤◌, ◌≡◌, ◌≢◌, ◌∙◌, refl, sym, List, [], ◌∷◌, Bool, true, false, inl, inr, ◌⊎◌, All,
  Option, none, some, Outcome, ok, err, >>=-elim, or_raise, or_raise-eq-ok, key_error, nonexistent,
  ambiguous, Bool-cases, ◌==◌,
}
use lenko_bot.Prelude.Table.{update}
use lenko_bot.Calendar.{LocalTime, local_ltb}
use lenko_bot.Calendar.Ordinal.{IsDate}
use lenko_bot.Calendar.Order.{local_ltb_irrefl}
use lenko_bot.Schedule.Zone.{Zone, ZoneDatabase, load_zone, resolve_local_time, resolve_in_zone}
use lenko_bot.Schedule.Zone.Laws.{resolve_in_zone_unique}
use lenko_bot.Schedule.Occurrence.{next_occurrence}
use lenko_bot.Schedule.Occurrence.Advance.{next_occurrence-later}
use lenko_bot.Reminder.Types.{ReminderJob}
use lenko_bot.Reminder.Store.{Store}
use lenko_bot.Reminder.Due.{
  move_cursor, advance_to, review_job, advance_following, advance_job_cursor, complete_job,
  mark_job_needs_review,
}

-- Moving the cursor leaves the runs and the outbox alone.
abbrev pub SameDeliveries : Store → Store → Type 0
SameDeliveries st after = (after.runs ≡ st.runs) × (after.outbox ≡ st.outbox)

-- The jobs with this id have a cursor with the property.
abbrev pub CursorOf : ℕ → (Option ℕ → Type 0) → List ReminderJob → Type 0
CursorOf id Q = All (λ j. ((j.id == id) ≡ false) ⊎ Q j.next_scheduled_for)

update-CursorOf :
    (id : ℕ) (Q : Option ℕ → Type 0) (f : ReminderJob → ReminderJob) (js : List ReminderJob)
    → ((j : ReminderJob) → Q (f j).next_scheduled_for)
    → CursorOf id Q (update (λ j. j.id == id) f js)
unfolding update
update-CursorOf id Q f [] h = tt
update-CursorOf id Q f (j ∷ js) h = elim (Bool-cases (j.id == id)) [
  | inl e ↦ rw e (inr (h j), update-CursorOf id Q f js h)
  | inr e ↦ rw e (inl e, update-CursorOf id Q f js h)
]

-- Where the cursor of the job may go.
pub record Moved (job : ReminderJob) (Q : Option ℕ → Type 0) (st after : Store) : Type 0 where
  pub same : SameDeliveries st after
  pub cursor : CursorOf job.id Q after.jobs

ok_same : {a : Store} (b : Store) → ◌≡◌ {A = Outcome Store} (ok a) (ok b) → a ≡ b
ok_same b h = cc

advance_to-Moved :
    (job : ReminderJob) (now : ℕ) (r : Outcome ℕ) (Q : Option ℕ → Type 0) (st after : Store)
    → Q none
    → ((u : ℕ) → r ≡ ok u → Q (some u))
    → advance_to job now r st ≡ ok after
    → Moved job Q st after
unfolding advance_to review_job
advance_to-Moved job now (ok u) Q st after q h e =
    let same = ok_same after e in
    rw (← same)
      (record { same = (refl, refl); cursor = update-CursorOf job.id Q _ st.jobs (λ j. h u refl) })
advance_to-Moved job now (err nonexistent) Q st after q h e =
    let same = ok_same after e in
    rw (← same)
      (record { same = (refl, refl); cursor = update-CursorOf job.id Q _ st.jobs (λ j. q) })
advance_to-Moved job now (err ambiguous) Q st after q h e =
    let same = ok_same after e in
    rw (← same)
      (record { same = (refl, refl); cursor = update-CursorOf job.id Q _ st.jobs (λ j. q) })
advance_to-Moved job now (err _) Q st after q h e = cc

-- The occurrence was at `scheduled`, in the job's zone.
pub record IsAt (tz : ZoneDatabase) (z : Zone) (job : ReminderJob) (scheduled : ℕ) : Type 0 where
  pub zone : tz job.timezone_name ≡ some z
  pub loaded : load_zone tz job.timezone_name ≡ ok z
  pub interval : 1 ≤ (job.recurrence).interval
  pub anchor : IsDate (job.local_start).date
  pub date : IsDate (z.from_utc scheduled).date

-- An instant that a later wall time resolves to is another one.
resolved_apart :
    (tz : ZoneDatabase) (z : Zone) (job : ReminderJob) (scheduled u : ℕ) (t : LocalTime)
    → IsAt tz z job scheduled
    → local_ltb (z.from_utc scheduled) t ≡ true
    → resolve_local_time tz t job.timezone_name ≡ ok u
    → some u ≢ some scheduled
unfolding resolve_local_time
resolved_apart tz z job scheduled u t w later h e =
    let resolved : resolve_in_zone z t ≡ ok u = rw (w.loaded, resolve_local_time) at h in
    let shown = (resolve_in_zone_unique z t u resolved).0 in
    let same : scheduled ≡ u = cc in
    let wall : t ≡ z.from_utc scheduled = sym shown.wall ∙ ap z.from_utc (sym same) in
    cc (local_ltb_irrefl t, rw (← wall) at later)

advance_following-Moved :
    (tz : ZoneDatabase) (z : Zone) (job : ReminderJob) (scheduled now : ℕ)
    (following : Option LocalTime) (st after : Store)
    → IsAt tz z job scheduled
    → ((t : LocalTime) → following ≡ some t → local_ltb (z.from_utc scheduled) t ≡ true)
    → advance_following tz job now following st ≡ ok after
    → Moved job (λ c. c ≢ some scheduled) st after
unfolding advance_following complete_job
advance_following-Moved tz z job scheduled now none st after w later h =
    rw (← ok_same after h)
      (record { same = (refl, refl); cursor = update-CursorOf job.id _ _ st.jobs (λ j e. cc) })
advance_following-Moved tz z job scheduled now (some t) st after w later h =
    advance_to-Moved job now (resolve_local_time tz t job.timezone_name) (λ c. c ≢ some scheduled)
      st after (λ e. cc) (λ u e. resolved_apart tz z job scheduled u t w (later t refl) e) h

-- Whatever `move_cursor` does to the job, its next instant is not the one that was emitted.
pub move_cursor-Moved :
    (tz : ZoneDatabase) (z : Zone) (job : ReminderJob) (scheduled now : ℕ) (failed : Bool)
    (st after : Store)
    → IsAt tz z job scheduled
    → move_cursor tz job scheduled now failed st ≡ ok after
    → Moved job (λ c. c ≢ some scheduled) st after
unfolding move_cursor mark_job_needs_review advance_job_cursor
move_cursor-Moved tz z job scheduled now true st after w h =
    rw (← ok_same after h)
      (record { same = (refl, refl); cursor = update-CursorOf job.id _ _ st.jobs (λ j e. cc) })
move_cursor-Moved tz z job scheduled now false st after w h =
    >>=-elim (or_raise (tz job.timezone_name) key_error) _ after h λ z' e h1.
      let same : z' ≡ z = cc (or_raise-eq-ok _ _ z' e, w.zone) in
      >>=-elim
        (next_occurrence job.recurrence job.local_start (some (z'.from_utc scheduled))
          (job.emitted_count + 1))
        _ after h1
        λ following f h2.
          advance_following-Moved tz z job scheduled now following st after w
            (λ t g.
              (next_occurrence-later job.recurrence job.local_start (z.from_utc scheduled) t
                (job.emitted_count + 1) w.interval w.anchor w.date (rw (← same, ← g) f)).0)
            h2
