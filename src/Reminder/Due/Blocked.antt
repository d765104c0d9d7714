-- ===== src/Reminder/Due/Blocked.antt =====
-- A job whose recurrence has no further date keeps `materialize_due` from all its work.
use lenko_bot.Prelude.{
  ℕ, ◌+◌, ◌%◌, ◌≤◌, ◌≡◌, refl, List, ◌∷◌, false, ◌||◌, some, ok, err, value_error, ltb,
}
use lenko_bot.Calendar.{LocalTime, local_ltb}
use lenko_bot.Schedule.Rule.{RecurrenceRule, ScheduleKind}
use lenko_bot.Schedule.Zone.{Zone, ZoneDatabase}
use lenko_bot.Schedule.Quiet.{quiet_hours_available_at}
use lenko_bot.Schedule.Occurrence.{
  next_occurrence, candidate_of, candidate_after, monthday_or, is_used_up, next_monthly,
}
use lenko_bot.Schedule.Occurrence.Monthly.{next_monthly-impossible}
use lenko_bot.Reminder.Types.{ReminderJob}
use lenko_bot.Reminder.Store.{Store}
use lenko_bot.Reminder.Store.Laws.{transaction-err}
use lenko_bot.Reminder.Due.{
  DueJob, availability, has_run, advance_job_cursor, move_cursor, emit_run, materialize_job,
  materialize_all, due_jobs, materialize_due,
}

-- A monthly rule on the 30th or later, counted from a February in steps of whole years: one of the
-- rules that have no date.
pub record HasNoNext (job : ReminderJob) : Type 0 where
  pub monthly : (job.recurrence).kind ≡ ScheduleKind.monthly
  pub from_february : ((job.local_start).date).month ≡ 2
  pub whole_years : (job.recurrence).interval % 12 ≡ 0
  pub late_day : 30 ≤ monthday_or (job.recurrence).monthday ((job.local_start).date).day

no_candidate :
    (kind : ScheduleKind) (rule : RecurrenceRule) (anchor after : LocalTime)
    → kind ≡ ScheduleKind.monthly
    → next_monthly rule anchor after ≡ err value_error
    → candidate_after kind rule anchor after ≡ err value_error
unfolding candidate_after
no_candidate ScheduleKind.monthly rule anchor after m e = rw e refl
no_candidate ScheduleKind.once rule anchor after m e = cc
no_candidate ScheduleKind.daily rule anchor after m e = cc
no_candidate ScheduleKind.weekly rule anchor after m e = cc

no_next :
    (job : ReminderJob) (after : LocalTime) (emitted : ℕ)
    → HasNoNext job
    → local_ltb after job.local_start ≡ false
    → is_used_up (job.recurrence).count emitted ≡ false
    → next_occurrence job.recurrence job.local_start (some after) emitted ≡ err value_error
unfolding next_occurrence candidate_of
no_next job after emitted w order unused =
    let none_left =
      next_monthly-impossible job.recurrence job.local_start after w.from_february w.whole_years
        w.late_day in
    rw
      (
        order,
        unused,
        no_candidate (job.recurrence).kind job.recurrence job.local_start after w.monthly none_left,
      )
      refl

stuck :
    (tz : ZoneDatabase) (z : Zone) (job : ReminderJob) (scheduled now : ℕ) (st : Store)
    → HasNoNext job
    → tz job.timezone_name ≡ some z
    → local_ltb (z.from_utc scheduled) job.local_start ≡ false
    → is_used_up (job.recurrence).count (job.emitted_count + 1) ≡ false
    → advance_job_cursor tz job scheduled now st ≡ err value_error
unfolding advance_job_cursor
stuck tz z job scheduled now st w zone order unused =
    rw
      (
        zone,
        advance_job_cursor,
        no_next job (z.from_utc scheduled) (job.emitted_count + 1) w order unused,
      )
      refl

stuck_row :
    (tz : ZoneDatabase) (z : Zone) (row : DueJob) (scheduled now available : ℕ) (st : Store)
    → HasNoNext row.job
    → tz (row.job).timezone_name ≡ some z
    → local_ltb (z.from_utc scheduled) (row.job).local_start ≡ false
    → is_used_up ((row.job).recurrence).count ((row.job).emitted_count + 1) ≡ false
    → (row.job).next_scheduled_for ≡ some scheduled
    → quiet_hours_available_at tz scheduled
        (row.job).timezone_name
        (row.job).quiet_start_minute
        (row.job).quiet_end_minute
        (row.job).urgent
      ≡ ok available
    → has_run st (row.job).id scheduled ≡ false
    → materialize_job tz now row st ≡ err value_error
unfolding materialize_job emit_run move_cursor availability
stuck_row tz z row scheduled now available st w zone order unused due quiet fresh =
    rw
      (
        due,
        materialize_job,
        quiet,
        availability,
        fresh,
        emit_run,
        move_cursor,
        stuck tz z row.job scheduled now _ w zone order unused,
      )
      refl

-- Let the limit be from 1 to 1000, and let the first of the jobs that are due have a monthly rule on
-- the 30th or later, whose local start lies in a February and whose interval is a multiple of twelve
-- months. Let its zone be known, its cursor not show a local time before the local start, its count
-- leave a further run, its quiet hours give a time for the run, and no run of it stand at the cursor.
-- Then `materialize_due` raises ValueError and changes nothing: this job, and every other job that is
-- due, of any owner, gets no run.
pub materialize_due-blocked :
    (tz : ZoneDatabase) (z : Zone) (limit now scheduled available : ℕ) (st : Store) (row : DueJob)
    (rows : List DueJob)
    → (ltb limit 1 || ltb 1000 limit) ≡ false
    → due_jobs st now limit ≡ row ∷ rows
    → HasNoNext row.job
    → tz (row.job).timezone_name ≡ some z
    → local_ltb (z.from_utc scheduled) (row.job).local_start ≡ false
    → is_used_up ((row.job).recurrence).count ((row.job).emitted_count + 1) ≡ false
    → (row.job).next_scheduled_for ≡ some scheduled
    → quiet_hours_available_at tz scheduled
        (row.job).timezone_name
        (row.job).quiet_start_minute
        (row.job).quiet_end_minute
        (row.job).urgent
      ≡ ok available
    → has_run st (row.job).id scheduled ≡ false
    → materialize_due tz limit now st ≡ (err value_error, st)
unfolding materialize_due materialize_all
materialize_due-blocked tz z limit now scheduled available st row rows range jobs w zone order
      unused due quiet fresh =
    let failed =
      stuck_row tz z row scheduled now available st w zone order unused due quiet fresh in
    rw range (
      transaction-err (λ s. materialize_all tz now (due_jobs s now limit) s) st value_error
        (rw (jobs, materialize_all, failed) refl))
