-- ===== src/Reminder/Invariant/Materialize.antt =====
-- Materialising due jobs keeps the outbox well formed.
use lenko_bot.Prelude.{
  subst, ℕ, ◌+◌, ◌≡◌, sym, List, [], ◌∷◌, Bool, true, false, ◌||◌, inl, inr, arith, Option, none,
  some, Outcome, ok, >>=-elim, or_raise, ltb, if◌then◌else◌, Bool-cases, value_error, Outcome-cases,
}
use lenko_bot.Schedule.Zone.{ZoneDatabase}
use lenko_bot.Schedule.Quiet.{quiet_hours_available_at}
use lenko_bot.Reminder.Types.{ReminderRun, ReminderJob}
use lenko_bot.Reminder.Store.{Store}
use lenko_bot.Reminder.Store.Laws.{transaction-keeps}
use lenko_bot.Reminder.Due.{
  DueJob, insert_run, new_run, new_entry, run_status, entry_status, emit_run, materialize_job,
  materialize_all, materialize_due, is_missed, move_cursor, quiet_hours_invalid, due_jobs, has_run,
  availability, advance_to, advance_following, advance_job_cursor, mark_job_needs_review,
  review_job, complete_job,
}
use lenko_bot.Reminder.Invariant.Outbox.{OutboxOk}
use lenko_bot.Calendar.{LocalTime}
use lenko_bot.Schedule.Zone.{resolve_local_time}
use lenko_bot.Schedule.Occurrence.{next_occurrence}
use lenko_bot.Reminder.Invariant.Tasks.{insert_run-OutboxOk}
use lenko_bot.Prelude.{key_error}

advance_to-outbox :
    (job : ReminderJob) (now : ℕ) (r : Outcome ℕ) (st after : Store)
    → advance_to job now r st ≡ ok after
    → after.outbox ≡ st.outbox
unfolding advance_to review_job
advance_to-outbox job now r st after h = ground arith

advance_following-outbox :
    (tz : ZoneDatabase) (job : ReminderJob) (now : ℕ) (t : Option LocalTime) (st after : Store)
    → advance_following tz job now t st ≡ ok after
    → after.outbox ≡ st.outbox
unfolding advance_following complete_job
advance_following-outbox tz job now none st after h = ground arith
advance_following-outbox tz job now (some t) st after h =
    advance_to-outbox job now (resolve_local_time tz t job.timezone_name) st after h

move_cursor-outbox :
    (tz : ZoneDatabase) (job : ReminderJob) (scheduled now : ℕ) (failed : Bool) (st after : Store)
    → move_cursor tz job scheduled now failed st ≡ ok after
    → after.outbox ≡ st.outbox
unfolding move_cursor advance_job_cursor mark_job_needs_review
move_cursor-outbox tz job scheduled now true st after h = ground arith
move_cursor-outbox tz job scheduled now false st after h =
    >>=-elim (or_raise (tz job.timezone_name) key_error) _ after h λ zone e h1.
      >>=-elim
        (next_occurrence job.recurrence job.local_start (some (zone.from_utc scheduled))
          (job.emitted_count + 1))
        _ after h1 λ following f h2. advance_following-outbox tz job now following st after h2

emit_run-OutboxOk :
    (tz : ZoneDatabase) (row : DueJob) (scheduled now : ℕ) (quiet : ℕ × Bool) (st after : Store)
    (r : Option ReminderRun)
    → OutboxOk st.outbox
    → emit_run tz row scheduled now quiet st ≡ ok (r, after)
    → OutboxOk after.outbox
unfolding emit_run
emit_run-OutboxOk tz row scheduled now (available, failed) st after r v h =
    let missed = is_missed row.job scheduled now available failed in
    let run =
      new_run st row.job scheduled now (run_status missed) (quiet_hours_invalid failed) none in
    let entry = new_entry st run row.chat_id row.text available now (entry_status missed) in
    >>=-elim (move_cursor tz row.job scheduled now failed (insert_run run entry st)) _ (r, after) h
      λ moved e h1.
        let same : moved ≡ after = cc in
        let kept =
          move_cursor-outbox tz row.job scheduled now failed (insert_run run entry st) moved e in
        subst (λ s. OutboxOk s.outbox) same
          (subst OutboxOk (sym kept)
            (insert_run-OutboxOk st run run row.chat_id row.text available now missed v))

materialize_job-OutboxOk :
    (tz : ZoneDatabase) (now : ℕ) (row : DueJob) (st after : Store) (r : Option ReminderRun)
    → OutboxOk st.outbox
    → materialize_job tz now row st ≡ ok (r, after)
    → OutboxOk after.outbox
unfolding materialize_job
materialize_job-OutboxOk tz now row st after r v h =
    >>=-elim (or_raise row.job.next_scheduled_for value_error) _ (r, after) h
      λ scheduled e h1.
        >>=-elim
          (availability
            (quiet_hours_available_at tz scheduled row.job.timezone_name row.job.quiet_start_minute
              row.job.quiet_end_minute row.job.urgent)
            scheduled)
          (λ quiet.
            if has_run st row.job.id scheduled
            then ok (none, st)
            else emit_run tz row scheduled now quiet st)
          (r, after) h1
          λ quiet f h2. elim (Bool-cases (has_run st row.job.id scheduled)) [
            | inl g ↦ let same : st ≡ after = cc (rw g at h2) in rw (← same) v
            | inr g ↦ emit_run-OutboxOk tz row scheduled now quiet st after r v (rw g at h2)
          ]

materialize_all-OutboxOk :
    (tz : ZoneDatabase) (now : ℕ) (rows : List DueJob) (st after : Store) (r : List ReminderRun)
    → OutboxOk st.outbox
    → materialize_all tz now rows st ≡ ok (r, after)
    → OutboxOk after.outbox
unfolding materialize_all
materialize_all-OutboxOk tz now [] st after r v h = let same : st ≡ after = cc in rw (← same) v
materialize_all-OutboxOk tz now (row ∷ rows) st after r v h =
    elim (Outcome-cases (materialize_job tz now row st)) [
      | inr (e, f) ↦ cc (rw (f, materialize_all) at h)
      | inl ((run, mid), f) ↦ elim (Outcome-cases (materialize_all tz now rows mid)) [
        | inr (e, g) ↦ cc (rw (f, materialize_all, g) at h)
        | inl ((runs, last), g) ↦
            let same : last ≡ after = cc (rw (f, materialize_all, g) at h) in
            rw (← same) (
              materialize_all-OutboxOk tz now rows mid last runs
                (materialize_job-OutboxOk tz now row st mid run v f) g)
      ]
    ]

pub materialize_due-OutboxOk :
    (tz : ZoneDatabase) (limit now : ℕ) (st : Store)
    → OutboxOk st.outbox
    → OutboxOk (materialize_due tz limit now st).1.outbox
unfolding materialize_due
materialize_due-OutboxOk tz limit now st v = elim (Bool-cases (ltb limit 1 || ltb 1000 limit)) [
  | inl e ↦ rw (e, materialize_due) v
  | inr e ↦
      rw (e, materialize_due)
        (transaction-keeps (λ s. OutboxOk s.outbox)
          (λ s. materialize_all tz now (due_jobs s now limit) s) st v
          (λ r after h. materialize_all-OutboxOk tz now (due_jobs st now limit) st after r v h))
]
