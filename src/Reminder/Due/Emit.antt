-- ===== src/Reminder/Due/Emit.antt =====
-- What `materialize_due` inserts: one run and one outbox entry for a job, and the job's new cursor.
use lenko_bot.Prelude.{
  ℕ, ◌+◌, ◌*◌, ◌≤◌, ◌≡◌, refl, [], ◌∷◌, ◌++◌, Bool, false, inl, inr, ◌⊎◌, arith, none, some, ok,
  >>=-elim, or_raise, or_raise-eq-ok, value_error, Bool-cases, ◌≢◌,
}
use lenko_bot.Schedule.Zone.{ZoneDatabase}
use lenko_bot.Schedule.Quiet.{quiet_hours_available_at}
use lenko_bot.Reminder.Types.{
  ReminderJob, ReminderRun, ReminderRunStatus, OutboxEntry, OutboxStatus,
}
use lenko_bot.Reminder.Due.Cursor.{IsAt, CursorOf, move_cursor-Moved}
use lenko_bot.Schedule.Zone.{Zone}
use lenko_bot.Reminder.Store.{Store, micros_per_second}
use lenko_bot.Reminder.Due.{
  DueJob, availability, new_run, new_entry, run_status, entry_status, quiet_hours_invalid, has_run,
  insert_run, is_missed, move_cursor, emit_run, materialize_job,
}

-- The run and the entry of one occurrence of a job, made at `now`: in time, or missed.
pub record IsEmitted (row : DueJob) (scheduled now : ℕ) (run : ReminderRun) (entry : OutboxEntry)
    : Type 0 where
  pub of_job : run.job_id ≡ (row.job).id
  pub of_owner :
      (run.owner_user_id ≡ (row.job).owner_user_id)
      × (run.lifecycle_epoch ≡ (row.job).lifecycle_epoch)
  pub for_time : (run.scheduled_for ≡ scheduled) × (entry.scheduled_for ≡ scheduled)
  pub joined :
      (entry.run_id ≡ run.id)
      × (entry.owner_user_id ≡ run.owner_user_id)
      × (entry.lifecycle_epoch ≡ run.lifecycle_epoch)
  pub message : (entry.chat_id ≡ row.chat_id) × (entry.text ≡ row.text)
  pub fresh : (entry.attempt ≡ 0) × (entry.lease_token ≡ none)
  pub timely :
      ((run.status ≡ ReminderRunStatus.due)
        × (entry.status ≡ OutboxStatus.pending)
        × (now ≤ scheduled + (row.job).grace_seconds * micros_per_second)
        × (entry.available_at ≤ scheduled + (row.job).grace_seconds * micros_per_second))
      ⊎ ((run.status ≡ ReminderRunStatus.missed) × (entry.status ≡ OutboxStatus.cancelled))

timely_of :
    (job : ReminderJob) (scheduled now available : ℕ) (failed : Bool)
    → ((run_status (is_missed job scheduled now available failed) ≡ ReminderRunStatus.due)
        × (entry_status (is_missed job scheduled now available failed) ≡ OutboxStatus.pending)
        × (now ≤ scheduled + job.grace_seconds * micros_per_second)
        × (available ≤ scheduled + job.grace_seconds * micros_per_second))
      ⊎ ((run_status (is_missed job scheduled now available failed) ≡ ReminderRunStatus.missed)
          × (entry_status (is_missed job scheduled now available failed) ≡ OutboxStatus.cancelled))
unfolding is_missed
timely_of job scheduled now available failed = ground arith

-- What `emit_run` has done.
record Emitted (tz : ZoneDatabase) (row : DueJob) (scheduled now : ℕ) (st : Store)
    (run : ReminderRun) (after : Store) : Type 0 where
  entry : OutboxEntry
  emitted : IsEmitted row scheduled now run entry
  failed : Bool
  moved : move_cursor tz row.job scheduled now failed (insert_run run entry st) ≡ ok after

emit_run-Emitted :
    (tz : ZoneDatabase) (row : DueJob) (scheduled now available : ℕ) (failed : Bool)
    (st after : Store) (run : ReminderRun)
    → emit_run tz row scheduled now (available, failed) st ≡ ok (some run, after)
    → Emitted tz row scheduled now st run after
unfolding emit_run new_run new_entry
emit_run-Emitted tz row scheduled now available failed st after run h =
    let missed = is_missed row.job scheduled now available failed in
    let made =
      new_run st row.job scheduled now (run_status missed) (quiet_hours_invalid failed) none in
    let entry = new_entry st made row.chat_id row.text available now (entry_status missed) in
    >>=-elim (move_cursor tz row.job scheduled now failed (insert_run made entry st)) _
      (some run, after) h
      λ st' moved done.
        let same : made ≡ run = cc done in
        let kept : st' ≡ after = cc done in
        rw (← same, ← kept)
          (record {
            entry = entry;
            emitted = record {
              of_job = refl;
              of_owner = (refl, refl);
              for_time = (refl, refl);
              joined = (refl, refl, refl);
              message = (refl, refl);
              fresh = (refl, refl);
              timely = timely_of row.job scheduled now available failed;
            };
            failed = failed;
            moved = moved;
          })

-- A due job that gets a run, whose zone is known and whose dates are real: the store has one more run
-- and one more outbox entry, which belong to the job's occurrence and carry its text to its chat. The
-- two are due and pending, with the grace period over neither now nor when the entry becomes
-- available, or they are missed and cancelled. There was no run of this occurrence before, and the
-- job's next instant is no longer the one of this run.
pub materialize_job-IsEmitted :
    (tz : ZoneDatabase) (z : Zone) (now scheduled : ℕ) (row : DueJob) (st after : Store)
    (run : ReminderRun)
    → (row.job).next_scheduled_for ≡ some scheduled
    → IsAt tz z row.job scheduled
    → materialize_job tz now row st ≡ ok (some run, after)
    → (entry : OutboxEntry) × IsEmitted row scheduled now run entry
      × (after.runs ≡ st.runs ++ run ∷ [])
      × (after.outbox ≡ st.outbox ++ entry ∷ [])
      × (has_run st (row.job).id scheduled ≡ false)
      × CursorOf (row.job).id (λ c. c ≢ some scheduled) after.jobs
unfolding materialize_job insert_run
materialize_job-IsEmitted tz z now scheduled row st after run due at h =
    >>=-elim (or_raise (row.job).next_scheduled_for value_error) _ (some run, after) h
      λ s e h1.
        let same : s ≡ scheduled = cc (or_raise-eq-ok _ _ s e, due) in
        >>=-elim
          (availability
            (quiet_hours_available_at tz s (row.job).timezone_name (row.job).quiet_start_minute
              (row.job).quiet_end_minute (row.job).urgent)
            s)
          _ (some run, after) h1
          λ quiet f h2. elim (Bool-cases (has_run st (row.job).id s)) [
            | inl there ↦ cc (rw there at h2)
            | inr fresh ↦
                let w =
                  emit_run-Emitted tz row scheduled now quiet.0 quiet.1 st after run
                    (rw (fresh, same) at h2) in
                let moved =
                  move_cursor-Moved tz z row.job scheduled now w.failed (insert_run run w.entry st)
                    after at w.moved in
                (
                  w.entry,
                  w.emitted,
                  (moved.same).0,
                  (moved.same).1,
                  rw (← same) fresh,
                  moved.cursor,
                )
          ]
